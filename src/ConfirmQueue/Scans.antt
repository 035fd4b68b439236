-- ===== src/ConfirmQueue/Scans.antt =====
-- What the loops of ConfirmQueue/Store do to a list of records: at most one record changes, and it is
-- one that passes the test.
use chatbot_win.Prelude.{Bool, true, List, [], ◌∷◌, ◌≡◌, refl, ap, Bool-cases, inl, inr}
use chatbot_win.ConfirmQueue.Item.{Item}
use chatbot_win.ConfirmQueue.Store.{
  Edit, refuse, answer, write, Scan, missing, refused, answered, written, at_item, behind, or_here,
  edit_first, edit_last,
}
use chatbot_win.ConfirmQueue.Rows.{ids}

-- One record of the list is related to the one that stands in its place, and all others are equal.
pub data One (R : Item → Item → Type 0) : List Item → List Item → Type 0 where
  here : {x y : Item} {xs : List Item} → R x y → One R (x ∷ xs) (y ∷ xs)
  there : {x : Item} {xs ys : List Item} → One R xs ys → One R (x ∷ xs) (x ∷ ys)

pub One-ids :
    {R : Item → Item → Type 0} {xs ys : List Item}
    → ((x y : Item) → R x y → y.queue_id ≡ x.queue_id)
    → One R xs ys
    → ids ys ≡ ids xs
One-ids keeps (here {x = x} {y = y} {xs = xs} r) = ap (λ k. k ∷ ids xs) (keeps x y r)
One-ids keeps (there {x = x} o) = ap (λ ks. x.queue_id ∷ ks) (One-ids keeps o)

pub One-map :
    {R S : Item → Item → Type 0} {xs ys : List Item}
    → ((x y : Item) → R x y → S x y)
    → One R xs ys
    → One S xs ys
One-map f (here {x = x} {y = y} r) = here (f x y r)
One-map f (there o) = there (One-map f o)

-- What a loop writes is the list with one record changed as `R` says.
abbrev pub Yields : {A : Type 0} → (A → Item → Item → Type 0) → List Item → Scan A → Type 0
Yields R xs missing = Unit
Yields R xs (refused e) = Unit
Yields R xs (answered a) = Unit
Yields R xs (written ys a) = One (R a) xs ys

module _ {A : Type 0} (test : Item → Bool) (f : Item → Edit A) where
  -- The record `x` passes the test and is written anew as `y`.
  abbrev pub Edits : A → Item → Item → Type 0
  Edits a x y = (test x ≡ true) × (f x ≡ write y a)

  at_item-Yields :
      (x : Item) (xs : List Item) → test x ≡ true → Yields Edits (x ∷ xs) (at_item (f x) xs)
  at_item-Yields x xs t = go (f x) refl
    where
      go : (e : Edit A) → f x ≡ e → Yields Edits (x ∷ xs) (at_item e xs)
      go (refuse r) e = tt
      go (answer r) e = tt
      go (write y b) e = here (t, e)

  behind-Yields :
      (x : Item) (xs : List Item) (s : Scan A)
      → Yields Edits xs s
      → Yields Edits (x ∷ xs) (behind x s)
  behind-Yields x xs missing h = tt
  behind-Yields x xs (refused e) h = tt
  behind-Yields x xs (answered a) h = tt
  behind-Yields x xs (written ys a) h = there h

  pub edit_first-Yields : (xs : List Item) → Yields Edits xs (edit_first test f xs)
  unfolding edit_first
  edit_first-Yields [] = tt
  edit_first-Yields (x ∷ xs) = elim (Bool-cases (test x)) [
    | inl t ↦ rw t (at_item-Yields x xs t)
    | inr t ↦ rw t (behind-Yields x xs _ (edit_first-Yields xs))
  ]

  or_here-Yields :
      (x : Item) (xs : List Item) (s : Scan A)
      → Yields Edits xs s
      → Yields Edits (x ∷ xs) (or_here s test f x xs)
  or_here-Yields x xs missing h = elim (Bool-cases (test x)) [
    | inl t ↦ rw t (at_item-Yields x xs t)
    | inr t ↦ rw t tt
  ]
  or_here-Yields x xs (refused e) h = tt
  or_here-Yields x xs (answered a) h = tt
  or_here-Yields x xs (written ys a) h = there h

  pub edit_last-Yields : (xs : List Item) → Yields Edits xs (edit_last test f xs)
  unfolding edit_last
  edit_last-Yields [] = tt
  edit_last-Yields (x ∷ xs) = or_here-Yields x xs _ (edit_last-Yields xs)
