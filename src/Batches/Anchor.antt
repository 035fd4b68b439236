-- ===== src/Batches/Anchor.antt =====
-- Which messages of a batch stay open for a reply (conversation_scheduler.py).
use chatbot_win.Prelude.{
  any, ℕ, String, Bool, true, false, not, ◌&&◌, Option, none, some, List, [], ◌∷◌, ◌+◌, ◌-◌, ◌<◌,
  ◌≤◌, ◌≡◌, ◌⊎◌, refl, arith, All,
}
use chatbot_win.Batches.Defer.{
  Raw, Normalized, Entry, is_live_timeline_message, is_reply_candidate, defer_reply, raws, entry_at,
  last_live_from, defer_from, defer_at, defer_after, defer_non_latest_live_messages,
}

abbrev pub raw_ids : List Raw → List String
raw_ids [] = []
raw_ids (r ∷ rs) = r.raw_id ∷ raw_ids rs

module _ (reset : Normalized → Bool) where
  -- For each message whether it is handed on as one that may be replied to.
  unfoldable pub left_open : List Entry → List Raw → List Bool
  left_open [] rs = []
  left_open (e ∷ es) [] = []
  left_open (e ∷ es) (r ∷ rs) =
      (is_reply_candidate reset e.message && not r.deferred_reply) ∷ left_open es rs

  -- The messages that no live one follows, of those that may be replied to.
  abbrev pub only_last : List Entry → List Bool
  only_last [] = []
  only_last (e ∷ es) =
      (is_reply_candidate reset e.message && not (any (λ x. is_live_timeline_message x.message) es))
      ∷ only_last es

  NoneLive : List Entry → Type 0
  NoneLive es = All (λ e. is_live_timeline_message e.message ≡ false) es

  -- The entry at `last` is the last one that is live, of entries that stand from `index` on.
  IsLast : ℕ → Entry → ℕ → List Entry → Type 0
  IsLast last e index [] = ⊥
  IsLast last e index (x ∷ es) =
      ((index ≡ last) × ((x ≡ e) × ((is_live_timeline_message e.message ≡ true) × NoneLive es)))
      ⊎ ((index < last) × IsLast last e (index + 1) es)

  -- What the first loop finds from `index` on.
  record Found (es : List Entry) (index : ℕ) (so_far : Option ℕ) : Type 0 where
    pub last : ℕ
    pub entry : Entry
    pub result : last_live_from index so_far es ≡ some last
    pub reached : index ≤ last
    pub is_last : IsLast last entry index es
    pub stands : entry_at (last - index) es ≡ some entry

  defer_from-raw_ids :
      (es : List Entry) (index last : ℕ) (anchored : Bool) (a : String)
      → raw_ids (defer_from reset index last anchored a es) ≡ raw_ids (raws es)
  unfolding defer_from defer_reply
  defer_from-raw_ids [] index last anchored a = refl
  defer_from-raw_ids (e ∷ es) index last anchored a =
      ground (arith, defer_from-raw_ids es (index + 1) last anchored a)

  defer_at-raw_ids :
      (es : List Entry) (last : ℕ) (anchor : Option Entry)
      → raw_ids (defer_at reset es last anchor) ≡ raw_ids (raws es)
  defer_at-raw_ids es last none = refl
  defer_at-raw_ids es last (some e) =
      defer_from-raw_ids es 0 last (is_reply_candidate reset e.message) e.raw.raw_id

  defer_after-raw_ids :
      (es : List Entry) (last : Option ℕ) → raw_ids (defer_after reset es last) ≡ raw_ids (raws es)
  defer_after-raw_ids es none = refl
  defer_after-raw_ids es (some last) = defer_at-raw_ids es last (entry_at last es)

  -- No message is dropped, added or moved.
  pub defer-raw_ids :
      (es : List Entry) → raw_ids (defer_non_latest_live_messages reset es) ≡ raw_ids (raws es)
  unfolding defer_non_latest_live_messages
  defer-raw_ids es = defer_after-raw_ids es (last_live_from 0 none es)
