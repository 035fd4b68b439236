-- ===== src/Bus/Keys.antt =====
-- The records of a file and their keys, against the index that is built of them (jsonl_bus.py).
use chatbot_win.Prelude.{
  ℕ, suc, String, Bool, true, not, ◌||◌, Option, none, some, List, [], ◌∷◌, ◌++◌, ◌<◌, ◌≡◌, inl,
  inr, refl, ap, ◌∙◌, arith, if◌then◌else◌, length, take, count, mem, add, mem-add, nonempty, ◌==◌,
  eq_iff, Bool-cases, nat_eq,
}
use chatbot_win.Bus.Text.{fresh, lines_from}
use chatbot_win.Bus.File.{File, Codec, content_of}
use chatbot_win.Bus.Index.{key_of, keys_of_lines}
use chatbot_win.Bus.Lines.{Line}

-- What Python's json promises: `dumps` gives one line of text, of which the whole can be read and no
-- part before the end can.
pub record Lawful (c : Codec) : Type 0 where
  pub one_line : (p : c.Payload) → Line (c.encode p)
  pub loads_encode : (p : c.Payload) → c.loads (c.encode p) ≡ some p
  pub loads_part :
      (p : c.Payload) (k : ℕ)
      → suc k < length (c.encode p)
      → c.loads (take (suc k) (c.encode p)) ≡ none

module _ (c : Codec) where
  abbrev loaded : Option c.Payload → List c.Payload
  loaded none = []
  loaded (some p) = p ∷ []

  -- The records that the lines hold.
  abbrev pub records : List (List ℕ) → List c.Payload
  records [] = []
  records (line ∷ lines) = loaded (c.loads line) ++ records lines

  abbrev pub stored : Option File → List c.Payload
  stored file = records (lines_from fresh (content_of file))

  abbrev pub has_key : String → String → c.Payload → Bool
  has_key key_field key p = key_of c key_field (some p) == key

  pub records-append : (xs ys : List (List ℕ)) → records (xs ++ ys) ≡ records xs ++ records ys
  records-append [] ys = refl
  records-append (x ∷ xs) ys = with_one (c.loads x) (records-append xs ys)
    where
      with_one :
          (o : Option c.Payload)
          → records (xs ++ ys) ≡ records xs ++ records ys
          → loaded o ++ records (xs ++ ys) ≡ (loaded o ++ records xs) ++ records ys
      with_one none e = e
      with_one (some p) e = ap (λ r. p ∷ r) e

  -- The sets that `keys_of_lines` grows.
  abbrev with_key : String → List String → List String
  with_key key keys = if nonempty key then add key keys else keys

  mem-with_key :
      (key j : String) (keys : List String)
      → nonempty key ≡ true
      → mem key (with_key j keys) ≡ (j == key || mem key keys)
  mem-with_key key j keys f = elim (Bool-cases (nonempty j)) [
    | inl e ↦ rw e (mem-add j key keys)
    | inr e ↦ elim (Bool-cases (j == key)) [
      | inl g ↦ absurd (ground (arith, ap nonempty ((eq_iff j key).0 g)))
      | inr g ↦ rw (e, g) refl
    ]
  ]

  -- A set of keys holds what it held and the keys that are not blank of the records.
  pub mem-keys_of_lines :
      (key_field key : String) (lines : List (List ℕ)) (keys : List String)
      → nonempty key ≡ true
      → mem key (keys_of_lines c key_field keys lines)
        ≡ (mem key keys || not (nat_eq (count (has_key key_field key) (records lines)) 0))
  unfolding keys_of_lines key_of
  mem-keys_of_lines key_field key [] keys f = ground arith
  mem-keys_of_lines key_field key (line ∷ lines) keys f =
      with_one (c.loads line) (
        mem-keys_of_lines key_field key lines (with_key (key_of c key_field (c.loads line)) keys) f)
    where
      with_one :
          (o : Option c.Payload)
          → mem key (keys_of_lines c key_field (with_key (key_of c key_field o) keys) lines) ≡ (
              mem key (with_key (key_of c key_field o) keys)
              || not (nat_eq (count (has_key key_field key) (records lines)) 0))
          → mem key (keys_of_lines c key_field (with_key (key_of c key_field o) keys) lines) ≡ (
              mem key keys
              || not (nat_eq (count (has_key key_field key) (loaded o ++ records lines)) 0))
      with_one none e = e
      with_one (some p) e =
          e ∙ rw (mem-with_key key (key_of c key_field (some p)) keys f) (ground arith)
