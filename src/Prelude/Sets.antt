-- ===== src/Prelude/Sets.antt =====
-- Sets of texts as lists: `add` and `unique`.
use Prim.Native.String.{String}
use mathlib.Core.Path.{◌≡◌, refl, sym, ◌∙◌}
use mathlib.Core.Logic.{inl, inr}
use mathlib.Core.Bool.{Bool, false, not, ◌&&◌, ◌||◌}
use mathlib.Core.List.{List, [], ◌∷◌, ◌++◌}
use native.Mathlib.Omega.{arith}
use text.Mathlib.TextEquality.{eq_iff}
use chatbot_win.Prelude.Tests.{Bool-cases}
use chatbot_win.Prelude.Lists.{any}
use chatbot_win.Prelude.Text.{◌==◌, mem, add, unique_from, unique}

pub mem-add : (k j : String) (xs : List String) → mem j (add k xs) ≡ (k == j || mem j xs)
unfolding add
mem-add k j xs = ground (arith, eq_iff k j)

pub mem-append : (k x : String) (xs : List String) → mem k (xs ++ (x ∷ [])) ≡ (mem k xs || x == k)
mem-append k x [] = ground arith
mem-append k x (y ∷ xs) = ground (arith, mem-append k x xs)

pub any-ext :
    (f g : String → Bool) (ks : List String) → ((k : String) → f k ≡ g k) → any f ks ≡ any g ks
any-ext f g [] h = refl
any-ext f g (k ∷ ks) h = rw (h k, any-ext f g ks h) refl

-- A test holds of one of the texts exactly when it holds of one that `unique_from` keeps or that was
-- seen before.
any-unique_from :
    (p : String → Bool) (seen xs : List String)
    → any p (unique_from seen xs) ≡ any (λ k. p k && not (mem k seen)) xs
unfolding unique_from
any-unique_from p seen [] = refl
any-unique_from p seen (x ∷ xs) = elim (Bool-cases (mem x seen)) [
  | inl e ↦ rw e (ground (arith, any-unique_from p seen xs))
  | inr e ↦ elim (Bool-cases (p x)) [
    | inl f ↦ rw (e, f) refl
    | inr f ↦ rw (e, f, any-unique_from p (x ∷ seen) xs) (any-ext _ _ xs (λ k. agree k f))
  ]
]
  where
    agree :
        (k : String) → p x ≡ false → (p k && not (x == k || mem k seen)) ≡ (p k && not (mem k seen))
    agree k f = elim (Bool-cases (x == k)) [
      | inl e ↦ let same : p k ≡ false = rw (sym ((eq_iff x k).0 e)) f in rw same refl
      | inr e ↦ rw e refl
    ]

pub any-unique : (p : String → Bool) (xs : List String) → any p (unique xs) ≡ any p xs
unfolding unique
any-unique p xs = any-unique_from p [] xs ∙ any-ext _ _ xs (λ k. ground arith)
