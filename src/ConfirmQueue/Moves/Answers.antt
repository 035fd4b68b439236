-- ===== src/ConfirmQueue/Moves/Answers.antt =====
-- What an operation on the record with a given id answers, and what it leaves there (confirm_queue.py).
use chatbot_win.Prelude.{
  String, true, false, some, List, [], ◌∷◌, ◌≡◌, refl, find, Bool-cases, inl, inr,
}
use mathlib.Core.Path.{subst}
use chatbot_win.ConfirmQueue.Item.{Item, Env}
use chatbot_win.ConfirmQueue.Store.{
  Queue, Outcome, done, raised, Edit, refuse, answer, write, Scan, refused, answered, written,
  at_item, behind, edit_first, conclude, has_id, read_all,
}
use chatbot_win.ConfirmQueue.Rows.{IsValid, IsKeyed, write_all-done}
use chatbot_win.ConfirmQueue.Scans.{One, One-ids, Yields, Edits, edit_first-Yields}
use chatbot_win.ConfirmQueue.Review.{lookup}

module _ {A : Type 0} where
  -- What an edit of a record answers to the caller.
  abbrev pub answer_of : Edit A → Outcome A
  answer_of (refuse e) = raised e
  answer_of (answer a) = done a
  answer_of (write y a) = done a

  -- What it leaves of the record.
  abbrev pub result_of : Item → Edit A → Item
  result_of x (refuse e) = x
  result_of x (answer a) = x
  result_of x (write y a) = y

  abbrev Ends : String → Edit A → Scan A → Type 0
  Ends k (refuse e) s = s ≡ refused e
  Ends k (answer a) s = s ≡ answered a
  Ends k (write y a) s = (ys : List Item) × (s ≡ written ys a) × (find (has_id k) ys ≡ some y)

  behind-Ends :
      (k : String) (x : Item) (e : Edit A) (s : Scan A)
      → has_id k x ≡ false
      → Ends k e s
      → Ends k e (behind x s)
  behind-Ends k x (refuse r) s n h = rw h refl
  behind-Ends k x (answer a) s n h = rw h refl
  behind-Ends k x (write y a) s n (ys, h, f) = (x ∷ ys, rw h refl, rw n f)

  module _ (k : String) (f : Item → Edit A)
      (keeps : (x y : Item) (a : A) → f x ≡ write y a → y.queue_id ≡ x.queue_id) where
    at_item-Ends :
        (x : Item) (xs : List Item)
        → has_id k x ≡ true
        → (e : Edit A) → f x ≡ e
        → Ends k e (at_item e xs)
    at_item-Ends x xs t (refuse r) e = refl
    at_item-Ends x xs t (answer a) e = refl
    at_item-Ends x xs t (write y a) e =
        let same_id : has_id k y ≡ true = rw (keeps x y a e) t in (y ∷ xs, refl, rw same_id refl)

    edit_first-Ends :
        (xs : List Item) (x : Item)
        → find (has_id k) xs ≡ some x
        → Ends k (f x) (edit_first (has_id k) f xs)
    unfolding edit_first
    edit_first-Ends [] x h = cc
    edit_first-Ends (a ∷ xs) x h = elim (Bool-cases (has_id k a)) [
      | inl t ↦
          let at_head : a ≡ x = cc (rw t at h) in
          rw t
            (subst (λ z. Ends k (f z) (at_item (f a) xs)) at_head (at_item-Ends a xs t (f a) refl))
      | inr n ↦ rw n (behind-Ends k a (f x) _ n (edit_first-Ends xs x (rw n at h)))
    ]

    conclude-Ends :
        (env : Env) (absent : Outcome A) (q : Queue) (x : Item) (s : Scan A) (e : Edit A)
        → IsValid q
        → lookup k q ≡ some x
        → Yields (Edits (has_id k) f) (read_all q) s
        → Ends k e s
        → ((conclude env absent q s).1 ≡ answer_of e)
          × (lookup k (conclude env absent q s).0 ≡ some (result_of x e))
    unfolding conclude lookup
    conclude-Ends env absent q x s (refuse r) v h y d = rw d (refl, h)
    conclude-Ends env absent q x s (answer a) v h y d = rw d (refl, h)
    conclude-Ends env absent q x s (write z a) v h y (zs, d, f_) =
        let o : One (Edits (has_id k) f a) (read_all q) zs = rw d at y in
        let keyed : IsKeyed zs = rw (One-ids (λ b c r. keeps b c a r.1) o) v.keyed in
        let (w, r, v') = write_all-done env zs a q keyed in rw d (w, rw r f_)

    -- The operation answers what the edit of the record answers, and leaves what that leaves.
    pub edit_first-at :
        (env : Env) (absent : Outcome A) (q : Queue) (x : Item)
        → IsValid q
        → lookup k q ≡ some x
        → ((conclude env absent q (edit_first (has_id k) f (read_all q))).1 ≡ answer_of (f x))
          × (lookup k (conclude env absent q (edit_first (has_id k) f (read_all q))).0
              ≡ some (result_of x (f x)))
    edit_first-at env absent q x v h =
        conclude-Ends env absent q x _ (f x) v h (edit_first-Yields (has_id k) f (read_all q))
          (edit_first-Ends (read_all q) x (unfold lookup in h))
