-- ===== src/Admission/Unmarked.antt =====
-- Dicts that call nobody a stranger (conversation/channel_admission.py, `_explicit_non_friend`).
use chatbot_win.Prelude.{
  String, Bool, false, ◌&&◌, ◌||◌, Option, some, List, [], ◌∷◌, ◌≡◌, ◌≢◌, refl, arith, All, any,
  mem, take, nonempty, contains, eq_iff, Bool-cases, inl, inr,
}
use chatbot_win.Json.{Value, truth, dict, Entries, entry_of, Python, dicts_of, walk_dicts}
use chatbot_win.Admission.Explicit.{
  friend_keys, non_friend_true_keys, relation_keys, non_friend_values, non_friend_text_keys,
  non_friend_text_markers, truthy, is_false, lowered, says_non_friend, explicit_non_friend,
}

-- No key of the dict calls the other person a stranger: none of the stranger flags is true, no friend
-- flag is a plain false, no relation is a stranger's, and no text holds one of the notices.
pub record Unmarked (py : Python) (e : Entries) : Type 0 where
  pub no_flag : All (λ key. truthy py (entry_of key e) ≡ false) non_friend_true_keys
  pub no_denial : All (λ key. entry_of key e ≢ some (truth false)) friend_keys
  pub no_relation : All (λ key. mem (lowered py key e) non_friend_values ≡ false) relation_keys
  pub no_notice :
      All
        (λ key. All (λ marker. contains marker (lowered py key e) ≡ false) non_friend_text_markers)
        non_friend_text_keys

any-All {ℓ} :
    {A : Type ℓ} (p : A → Bool) (xs : List A) → any p xs ≡ false → All (λ x. p x ≡ false) xs
any-All p [] h = tt
any-All p (x ∷ xs) h = (ground arith, any-All p xs (ground arith))

All-map {ℓ κ μ} :
    {A : Type ℓ} {P : A → Type κ} {Q : A → Type μ} (f : (x : A) → P x → Q x) (xs : List A)
    → All P xs
    → All Q xs
All-map f [] h = tt
All-map f (x ∷ xs) (h, hs) = (f x h, All-map f xs hs)

is_false-false : (v : Option Value) → is_false v ≡ false → v ≢ some (truth false)
is_false-false v h e = cc (rw e at h)

no_notice_in_empty : All (λ marker. contains marker "" ≡ false) non_friend_text_markers
unfolding contains
no_notice_in_empty = (refl, (refl, (refl, (refl, (refl, tt)))))

no_notice_in :
    (s : String)
    → (nonempty s && any (λ marker. contains marker s) non_friend_text_markers) ≡ false
    → All (λ marker. contains marker s ≡ false) non_friend_text_markers
no_notice_in s h = elim (Bool-cases (nonempty s)) [
  | inl n ↦ any-All (λ marker. contains marker s) non_friend_text_markers (rw n at h)
  | inr n ↦ let blank : s ≡ "" = ground (arith, eq_iff s "") in rw blank no_notice_in_empty
]

all_four :
    (a b c d : Bool)
    → (a || b || c || d) ≡ false
    → (a ≡ false) × (b ≡ false) × (c ≡ false) × (d ≡ false)
all_four a b c d h = ground arith

says_non_friend-Unmarked :
    (py : Python) (e : Entries) → says_non_friend py e ≡ false → Unmarked py e
unfolding says_non_friend
says_non_friend-Unmarked py e h =
    let (flags, denials, relations, notices) = all_four _ _ _ _ h in
    record {
      no_flag = any-All (λ key. truthy py (entry_of key e)) non_friend_true_keys flags;
      no_denial =
          All-map (λ key. is_false-false (entry_of key e)) friend_keys
            (any-All (λ key. is_false (entry_of key e)) friend_keys denials);
      no_relation =
          any-All (λ key. mem (lowered py key e) non_friend_values) relation_keys relations;
      no_notice =
          All-map (λ key. no_notice_in (lowered py key e)) non_friend_text_keys
            (any-All
              (λ key.
                nonempty (lowered py key e)
                && any (λ marker. contains marker (lowered py key e)) non_friend_text_markers)
              non_friend_text_keys notices);
    }

-- The first hundred dicts of the payload, itself among them, call nobody a stranger.
abbrev pub AllUnmarked : Python → Entries → Type 0
AllUnmarked py payload = All (Unmarked py) (take 100 (dicts_of (dict payload)))

pub explicit_non_friend-AllUnmarked :
    (py : Python) (payload : Entries)
    → explicit_non_friend py payload ≡ false
    → AllUnmarked py payload
unfolding explicit_non_friend walk_dicts
explicit_non_friend-AllUnmarked py payload h =
    All-map (says_non_friend-Unmarked py) (take 100 (dicts_of (dict payload))) (any-All _ _ h)
