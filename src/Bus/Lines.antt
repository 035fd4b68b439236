-- ===== src/Bus/Lines.antt =====
-- The lines of a file that a record was appended to (jsonl_bus.py).
use chatbot_win.Prelude.{
  ℕ, Bool, true, false, Option, none, some, List, [], ◌∷◌, ◌++◌, ◌≡◌, inl, inr, refl, sym, ap, ◌∙◌,
  subst, nat_eq, All, Bool-cases, append_assoc,
}
use chatbot_win.Bus.Text.{
  Place, fresh, after_cr, inside, line_of, unended, place_at, ended_by, lines_from,
}
use chatbot_win.Bus.File.{linesep, last_byte, line_end}

-- Where a reader stands behind the bytes, and the lines that ended in them.
abbrev pub place_after : Place → List ℕ → Place
place_after place [] = place
place_after place (b ∷ bytes) = place_after (place_at place b) bytes

abbrev pub ended : Place → List ℕ → List (List ℕ)
ended place [] = []
ended place (b ∷ bytes) = ended_by place b ++ ended (place_at place b) bytes

-- A text without line ends, which `json.dumps` gives: it escapes them.
abbrev pub Plain : List ℕ → Type 0
Plain bytes = All (λ b. (nat_eq b 13 ≡ false) × (nat_eq b 10 ≡ false)) bytes

pub lines_from-append :
    (place : Place) (xs ys : List ℕ)
    → lines_from place (xs ++ ys) ≡ ended place xs ++ lines_from (place_after place xs) ys
unfolding lines_from
lines_from-append place [] ys = refl
lines_from-append place (b ∷ bytes) ys =
    ap (λ r. ended_by place b ++ r) (lines_from-append (place_at place b) bytes ys)
    ∙ sym (append_assoc (ended_by place b) _ _)

pub lines_from-ended :
    (place : Place) (xs : List ℕ)
    → lines_from place xs ≡ ended place xs ++ unended (place_after place xs)
unfolding lines_from
lines_from-ended place [] = refl
lines_from-ended place (b ∷ bytes) =
    ap (λ r. ended_by place b ++ r) (lines_from-ended (place_at place b) bytes)
    ∙ sym (append_assoc (ended_by place b) _ _)

-- What the writer puts between, by the reader's place.
abbrev pub break_after : Bool → Place → List ℕ
break_after windows fresh = []
break_after windows after_cr = 10 ∷ []
break_after windows (inside line) = linesep windows

line_end-place_at :
    (windows : Bool) (place : Place) (b : ℕ)
    → line_end windows (some b) ≡ break_after windows (place_at place b)
unfolding line_end
line_end-place_at windows place b = elim (Bool-cases (nat_eq b 13)) [
  | inl e ↦ rw e refl
  | inr e ↦ elim (Bool-cases (nat_eq b 10)) [ inl f ↦ rw (e, f) refl | inr f ↦ rw (e, f) refl ]
]

pub line_end-break_after :
    (windows : Bool) (place : Place) (before : Option ℕ) (bytes : List ℕ)
    → line_end windows before ≡ break_after windows place
    → line_end windows (last_byte before bytes) ≡ break_after windows (place_after place bytes)
unfolding last_byte
line_end-break_after windows place before [] e = e
line_end-break_after windows place before (b ∷ bytes) e =
    line_end-break_after windows (place_at place b) (some b) bytes
      (line_end-place_at windows place b)

pub line_end-fresh :
    (windows : Bool) (content : List ℕ)
    → line_end windows (last_byte none content) ≡ break_after windows (place_after fresh content)
unfolding line_end
line_end-fresh windows content = line_end-break_after windows fresh none content refl

pub lines_from-Plain :
    (place : Place) (b : ℕ) (bytes rest : List ℕ)
    → Plain (b ∷ bytes)
    → lines_from place (b ∷ (bytes ++ rest))
      ≡ lines_from (inside (line_of place ++ (b ∷ bytes))) rest
unfolding lines_from
lines_from-Plain place b [] rest ((h, k), p) = rw (h, k) refl
lines_from-Plain place b (d ∷ bytes) rest ((h, k), p) =
    rw (h, k)
      (lines_from-Plain (inside (line_of place ++ (b ∷ []))) d bytes rest p
        ∙ ap (λ l. lines_from (inside l) rest) (append_assoc (line_of place) (b ∷ []) (d ∷ bytes)))

lines_from-linesep :
    (windows : Bool) (line : List ℕ) → lines_from (inside line) (linesep windows) ≡ line ∷ []
unfolding lines_from linesep
lines_from-linesep true line = refl
lines_from-linesep false line = refl

lines_from-break_after :
    (windows : Bool) (place : Place) (rest : List ℕ)
    → lines_from place (break_after windows place ++ rest) ≡ unended place ++ lines_from fresh rest
unfolding lines_from linesep
lines_from-break_after windows fresh rest = refl
lines_from-break_after windows after_cr rest = refl
lines_from-break_after true (inside line) rest = refl
lines_from-break_after false (inside line) rest = refl

record_line :
    (windows : Bool) (b : ℕ) (bytes : List ℕ)
    → Plain (b ∷ bytes)
    → lines_from fresh ((b ∷ bytes) ++ linesep windows) ≡ (b ∷ bytes) ∷ []
record_line windows b bytes p =
    lines_from-Plain fresh b bytes (linesep windows) p ∙ lines_from-linesep windows (b ∷ bytes)

-- The bytes of a record that is not empty.
abbrev pub Line : List ℕ → Type 0
Line bytes = (b : ℕ) × (rest : List ℕ) × (bytes ≡ b ∷ rest) × Plain bytes

pub lines_from-bytes :
    (windows : Bool) (content line : List ℕ)
    → Line line
    → lines_from fresh
        (content ++ (line_end windows (last_byte none content) ++ (line ++ linesep windows)))
      ≡ lines_from fresh content ++ (line ∷ [])
lines_from-bytes windows content line (b, rest, e, p) = rw (line_end-fresh windows content) (
    lines_from-append fresh content _
    ∙ ap (λ r. ended fresh content ++ r)
        (lines_from-break_after windows (place_after fresh content) _
          ∙ ap (λ r. unended (place_after fresh content) ++ r) whole)
    ∙ sym (append_assoc (ended fresh content) _ _)
    ∙ ap (λ r. r ++ (line ∷ [])) (sym (lines_from-ended fresh content)))
  where
    whole : lines_from fresh (line ++ linesep windows) ≡ line ∷ []
    whole = rw e (record_line windows b rest (subst Plain e p))
