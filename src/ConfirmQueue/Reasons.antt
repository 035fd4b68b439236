-- ===== src/ConfirmQueue/Reasons.antt =====
-- Why the loop of an operation from the last record on writes nothing (ConfirmQueue/Store, `edit_last`).
use chatbot_win.Prelude.{
  Bool, true, false, List, [], ◌∷◌, ◌≡◌, refl, ◌⊎◌, inl, inr, Bool-cases, All,
}
use chatbot_win.ConfirmQueue.Item.{Item}
use chatbot_win.ConfirmQueue.Store.{
  Edit, refuse, answer, write, Scan, missing, refused, answered, written, at_item, or_here,
  edit_last,
}

-- One of the records is as `P` says.
abbrev pub Has : (Item → Type 0) → List Item → Type 0
Has P [] = ⊥
Has P (x ∷ xs) = P x ⊎ Has P xs

module _ {A : Type 0} (test : Item → Bool) (f : Item → Edit A) where
  -- Why the loop came to this without a write.
  abbrev pub Reason : List Item → Scan A → Type 0
  Reason xs missing = All (λ x. test x ≡ false) xs
  Reason xs (refused e) = Has (λ x. (test x ≡ true) × (f x ≡ refuse e)) xs
  Reason xs (answered a) = Has (λ x. (test x ≡ true) × (f x ≡ answer a)) xs
  Reason xs (written ys a) = Unit

  at_item-Reason :
      (x : Item) (xs : List Item)
      → test x ≡ true
      → (e : Edit A) → f x ≡ e
      → Reason (x ∷ xs) (at_item e xs)
  at_item-Reason x xs t (refuse r) e = inl (t, e)
  at_item-Reason x xs t (answer a) e = inl (t, e)
  at_item-Reason x xs t (write y a) e = tt

  or_here-Reason :
      (x : Item) (xs : List Item) (s : Scan A)
      → Reason xs s
      → Reason (x ∷ xs) (or_here s test f x xs)
  or_here-Reason x xs missing h = elim (Bool-cases (test x)) [
    | inl t ↦ rw t (at_item-Reason x xs t (f x) refl)
    | inr t ↦ rw t (t, h)
  ]
  or_here-Reason x xs (refused e) h = inr h
  or_here-Reason x xs (answered a) h = inr h
  or_here-Reason x xs (written ys a) h = tt

  pub edit_last-Reason : (xs : List Item) → Reason xs (edit_last test f xs)
  unfolding edit_last
  edit_last-Reason [] = tt
  edit_last-Reason (x ∷ xs) = or_here-Reason x xs _ (edit_last-Reason xs)
