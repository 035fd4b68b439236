-- ===== src/Bus/Held.antt =====
-- How often a key stands in a file, before and behind an append (jsonl_bus.py).
use chatbot_win.Prelude.{
  ℕ, zero, suc, String, Bool, Option, none, some, List, [], ◌∷◌, ◌++◌, ◌+◌, ◌<◌, ◌≤◌, ◌≡◌, ◌⊎◌, inl,
  inr, refl, ap, ◌∙◌, arith, if◌then◌else◌, length, length-append, take, count, count-append,
  append_nil,
}
use chatbot_win.Bus.Text.{fresh, lines_from}
use chatbot_win.Bus.File.{Codec, appended_bytes}
use chatbot_win.Bus.Lines.{lines_from-bytes}
use chatbot_win.Bus.Torn.{piece, torn_bytes}
use chatbot_win.Bus.Keys.{Lawful, records, records-append, has_key}

take_all : (n : ℕ) (xs : List ℕ) → length xs ≤ n → take n xs ≡ xs
take_all zero [] h = refl
take_all zero (x ∷ xs) h = absurd (omega arith)
take_all (suc n) [] h = refl
take_all (suc n) (x ∷ xs) h = ap (λ r. x ∷ r) (take_all n xs (omega arith))

-- Nothing was added, or something that can be measured.
pub grown :
    (content bytes : List ℕ)
    → (content ++ bytes ≡ content) ⊎ (length content < length (content ++ bytes))
grown content [] = inl (append_nil content)
grown content (b ∷ bytes) = inr (rw length-append (omega arith))

-- How often a key stands in a file.
abbrev pub held : (c : Codec) → String → String → List ℕ → ℕ
held c key_field key content =
    count (has_key c key_field key) (records c (lines_from fresh content))

module _ (c : Codec) (law : Lawful c) (windows : Bool) where
  pub records-appended :
      (p : c.Payload) (content : List ℕ)
      → records c (lines_from fresh (content ++ appended_bytes windows c p content))
        ≡ records c (lines_from fresh content) ++ (p ∷ [])
  unfolding appended_bytes
  records-appended p content =
      ap (λ ls. records c ls) (lines_from-bytes windows content (c.encode p) (law.one_line p))
      ∙ records-append c (lines_from fresh content) (c.encode p ∷ [])
      ∙ rw (law.loads_encode p) refl

  records-piece :
      (p : c.Payload) (o : Option ℕ)
      → (records c (piece (c.encode p) o) ≡ []) ⊎ (records c (piece (c.encode p) o) ≡ p ∷ [])
  records-piece p none = inl refl
  records-piece p (some k) = elim (split (suc k) (length (c.encode p))) [
    | inl h ↦ inl (rw (law.loads_part p k h) refl)
    | inr h ↦ inr (rw (take_all (suc k) (c.encode p) h, law.loads_encode p) refl)
  ]
    where
      split : (a b : ℕ) → (a < b) ⊎ (b ≤ a)
      split a b = omega arith

  -- What the process left when it stopped: the records before, or one more.
  pub records-torn :
      (p : c.Payload) (content : List ℕ) (n : ℕ)
      → (records c (lines_from fresh (content ++ take n (appended_bytes windows c p content)))
          ≡ records c (lines_from fresh content))
        ⊎ (records c (lines_from fresh (content ++ take n (appended_bytes windows c p content)))
            ≡ records c (lines_from fresh content) ++ (p ∷ []))
  unfolding appended_bytes
  records-torn p content n =
      let t = torn_bytes windows content (c.encode p) n (law.one_line p) in
      let all =
        ap (λ ls. records c ls) t.1
        ∙ records-append c (lines_from fresh content) (piece (c.encode p) t.0) in
      elim (records-piece p t.0) [
        | inl e ↦ inl (all ∙ rw e (append_nil _))
        | inr e ↦ inr (all ∙ rw e refl)
      ]

  pub held-appended :
      (key_field key : String) (p : c.Payload) (content : List ℕ)
      → held c key_field key (content ++ appended_bytes windows c p content)
        ≡ held c key_field key content + (if has_key c key_field key p then 1 else 0)
  held-appended key_field key p content =
      ap (λ ps. count (has_key c key_field key) ps) (records-appended p content)
      ∙ count-append (has_key c key_field key) _ (p ∷ [])
      ∙ omega arith

  pub held-torn :
      (key_field key : String) (p : c.Payload) (content : List ℕ) (n : ℕ)
      → held c key_field key (content ++ take n (appended_bytes windows c p content))
        ≤ held c key_field key content + (if has_key c key_field key p then 1 else 0)
  held-torn key_field key p content n = elim (records-torn p content n) [
    | inl e ↦ rw e (ground arith)
    | inr e ↦
        rw
          (
            e,
            count-append (has_key c key_field key) (records c (lines_from fresh content)) (p ∷ []),
          )
          (omega arith)
  ]
