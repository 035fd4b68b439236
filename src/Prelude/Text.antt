-- ===== src/Prelude/Text.antt =====
-- Python's tests on `str`, over the code points of a text.
use Prim.Native.Nat.{ℕ, suc}
use Prim.Native.Char.{code}
use Prim.Native.String
use Prim.Native.String.{String}
use mathlib.Core.Path.{◌≡◌, refl}
use mathlib.Core.Bool.{Bool, true, false, ◌&&◌, ◌||◌}
use mathlib.Core.List.{List, [], ◌∷◌}
pub use text.Mathlib.Text.{◌==◌}
use chatbot_win.Prelude.Tests.{leb, nat_eq, if◌then◌else◌}

-- `str.isspace` of one code point.
unfoldable pub is_space : ℕ → Bool
is_space c =
    leb 9 c && leb c 13
    || leb 28 c && leb c 32
    || nat_eq c 0x85
    || nat_eq c 0xa0
    || nat_eq c 0x1680
    || leb 0x2000 c && leb c 0x200a
    || nat_eq c 0x2028
    || nat_eq c 0x2029
    || nat_eq c 0x202f
    || nat_eq c 0x205f
    || nat_eq c 0x3000

-- `text.lstrip()`
unfoldable pub lstrip : String → String
unfolding is_space
lstrip String.[] = ""
lstrip (String.◌∷◌ c s) = if is_space (code c) then lstrip s else String.◌∷◌ c s

-- `text.rstrip()`: a character goes when it and all behind it are spaces.
unfoldable pub rstrip : String → String
unfolding is_space
rstrip String.[] = ""
rstrip (String.◌∷◌ c s) =
    let rest = rstrip s in if rest == "" && is_space (code c) then "" else String.◌∷◌ c rest

-- `text.strip()`
unfoldable pub strip : String → String
unfolding lstrip rstrip
strip s = rstrip (lstrip s)

-- `bool(text)`
abbrev pub nonempty : String → Bool
nonempty String.[] = false
nonempty (String.◌∷◌ c s) = true

-- `text.startswith(prefix)`
unfoldable pub starts_with : String → String → Bool
starts_with s String.[] = true
starts_with String.[] (String.◌∷◌ d p) = false
starts_with (String.◌∷◌ c s) (String.◌∷◌ d p) = nat_eq (code c) (code d) && starts_with s p

-- `part in text`
unfoldable pub contains : String → String → Bool
unfolding starts_with
contains part String.[] = starts_with "" part
contains part (String.◌∷◌ c s) = starts_with (String.◌∷◌ c s) part || contains part s

-- `len(text)`
unfoldable pub len : String → ℕ
len String.[] = 0
len (String.◌∷◌ c s) = suc (len s)

-- `a or b` on texts
abbrev pub or_else : String → String → String
or_else a b = if nonempty a then a else b

-- `separator.join(texts)`; an f-string is a join on the empty text.
unfoldable pub join : String → List String → String
join separator [] = ""
join separator (x ∷ []) = x
join separator (x ∷ y ∷ ys) = String.◌++◌ x (String.◌++◌ separator (join separator (y ∷ ys)))

-- `value in values`
abbrev pub mem : String → List String → Bool
mem k [] = false
mem k (x ∷ xs) = x == k || mem k xs

-- `set.add`
unfoldable pub add : String → List String → List String
add k xs = if mem k xs then xs else k ∷ xs

-- Keeps the first of equal texts, as `dict.fromkeys` does.
unfoldable pub unique_from : List String → List String → List String
unique_from seen [] = []
unique_from seen (x ∷ xs) =
    let kept = x ∷ unique_from (x ∷ seen) xs in
    let rest = unique_from seen xs in if mem x seen then rest else kept

unfoldable pub unique : List String → List String
unfolding unique_from
unique xs = unique_from [] xs

strip_test : strip " \t a b\n" ≡ "a b"
unfolding strip
strip_test = refl

contains_test : contains "ridge:1" "to bridge:12" ≡ true
unfolding contains
contains_test = refl
