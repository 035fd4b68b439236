-- ===== src/Keys/Parse.antt =====
-- How a line of the key file is read (llm/key_pool.py).
use Prim.Native.Char.{Char, code}
use Prim.Native.String
use chatbot_win.Prelude.{
  ℕ, String, Bool, true, false, not, ◌&&◌, ◌||◌, Option, none, some, [], ◌∷◌, leb, nat_eq, strip,
  nonempty, or_else, join, starts_with, ◌==◌, if◌then◌else◌,
}

abbrev is_letter : ℕ → Bool
is_letter c = leb 65 c && leb c 90 || leb 97 c && leb c 122 || nat_eq c 95

abbrev is_word : ℕ → Bool
is_word c = is_letter c || leb 48 c && leb c 57

abbrev all_words : String → Bool
all_words String.[] = true
all_words (String.◌∷◌ c s) = is_word (code c) && all_words s

-- `re.fullmatch(r"[A-Za-z_][A-Za-z0-9_]*", text)`
unfoldable pub is_name : String → Bool
is_name String.[] = false
is_name (String.◌∷◌ c s) = is_letter (code c) && all_words s

-- `text.strip(chars)`, where a test tells the characters.
unfoldable pub lstrip_of : (ℕ → Bool) → String → String
lstrip_of p String.[] = ""
lstrip_of p (String.◌∷◌ c s) = if p (code c) then lstrip_of p s else String.◌∷◌ c s

unfoldable pub rstrip_of : (ℕ → Bool) → String → String
rstrip_of p String.[] = ""
rstrip_of p (String.◌∷◌ c s) =
    let rest = rstrip_of p s in if rest == "" && p (code c) then "" else String.◌∷◌ c rest

abbrev strip_of : (ℕ → Bool) → String → String
strip_of p s = rstrip_of p (lstrip_of p s)

-- `re.sub(r"[^A-Za-z0-9_]+", "_", text)`; the flag tells whether the character before was replaced.
unfoldable pub words_only : Bool → String → String
words_only replaced String.[] = ""
words_only replaced (String.◌∷◌ c s) =
    let same = String.◌∷◌ c (words_only false s) in
    let run = words_only true s in
    if is_word (code c) then same else if replaced then run else String.◌++◌ "_" run

-- `_secret_ref`; `digest` is the first 8 hexadecimal digits of the SHA-256.
unfoldable pub secret_ref : (String → String) → String → String → String
secret_ref digest name value = join "" (
    or_else (strip_of (λ c. nat_eq c 95) (words_only false name)) "file"
    ∷ ":secret:"
    ∷ digest value
    ∷ [])

abbrev prefixed : Char → Option (String × String) → Option (String × String)
prefixed c none = none
prefixed c (some (left, right)) = some (String.◌∷◌ c left, right)

-- `text.split("=", 1)` where there is such a character
unfoldable pub split_once : String → Option (String × String)
split_once String.[] = none
split_once (String.◌∷◌ c s) = if nat_eq (code c) 61 then some ("", s) else prefixed c (split_once s)

-- What `_parse_key_file_line` gives: the ref, and the secret where the line holds one; without one the
-- ref is the name of an environment variable.
pub record Parsed : Type 0 where
  pub ref : String
  pub secret : Option String

abbrev bare : (String → String) → String → Parsed
bare digest stripped =
    if is_name stripped
    then record { ref = stripped; secret = none }
    else record { ref = secret_ref digest "file" stripped; secret = some stripped }

abbrev assigned : (String → String) → String → Option (String × String) → Parsed
assigned digest stripped none = bare digest stripped
assigned digest stripped (some (left, right)) =
    let name = strip left in
    let value = strip_of (λ c. nat_eq c 39) (strip_of (λ c. nat_eq c 34) (strip right)) in
    if is_name name
    then if nonempty value
      then record { ref = secret_ref digest name value; secret = some value }
      else record { ref = name; secret = none }
    else bare digest stripped

-- `_parse_key_file_line`
unfoldable pub parse_key_file_line : (String → String) → String → Option Parsed
parse_key_file_line digest line =
    let stripped = strip line in
    let inner = strip_of (λ c. nat_eq c 96 || nat_eq c 32) stripped in
    if not (nonempty stripped) || starts_with stripped "#"
    then none
    else some (assigned digest inner (split_once inner))
