-- ===== src/Bus/Text.antt =====
-- The lines of a text file, as Python reads them with universal newlines.
use chatbot_win.Prelude.{ℕ, List, [], ◌∷◌, ◌++◌, nat_eq, if◌then◌else◌}

-- Where a reader stands: at the start of a line, behind a `\r` that ended a line, or in a line.
pub data Place : Type 0 where
  fresh after_cr : Place
  inside : List ℕ → Place

abbrev pub line_of : Place → List ℕ
line_of fresh = []
line_of after_cr = []
line_of (inside line) = line

-- The line that a `\n` ends; behind a `\r` it ends none.
abbrev pub fed : Place → List (List ℕ)
fed fresh = [] ∷ []
fed after_cr = []
fed (inside line) = line ∷ []

-- What a reader that stands at the end of the text has still to give.
abbrev pub unended : Place → List (List ℕ)
unended fresh = []
unended after_cr = []
unended (inside line) = line ∷ []

abbrev pub place_at : Place → ℕ → Place
place_at place b =
    if nat_eq b 13
    then after_cr
    else if nat_eq b 10
    then fresh
    else inside (line_of place ++ (b ∷ []))

abbrev pub ended_by : Place → ℕ → List (List ℕ)
ended_by place b = if nat_eq b 13 then line_of place ∷ [] else if nat_eq b 10 then fed place else []

-- The lines of a text, without their ends.
unfoldable pub lines_from : Place → List ℕ → List (List ℕ)
lines_from place [] = unended place
lines_from place (b ∷ bytes) = ended_by place b ++ lines_from (place_at place b) bytes
