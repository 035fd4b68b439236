-- ===== src/ConfirmQueue/Moves/Records.antt =====
-- The fate of one record of the confirmation queue under any call (confirm_queue.py).
use mathlib.Core.Path.{subst}
use chatbot_win.Prelude.{
  String, true, false, some, List, [], ◌∷◌, ◌++◌, ◌≡◌, ◌≢◌, refl, arith, ◌⊎◌, inl, inr, eq_iff,
  find, Bool-cases,
}
use chatbot_win.ConfirmQueue.Item.{Item, Env}
use chatbot_win.ConfirmQueue.Store.{Queue, has_id}
use chatbot_win.ConfirmQueue.Rows.{IsValid}
use chatbot_win.ConfirmQueue.Scans.{One, here, there}
use chatbot_win.ConfirmQueue.Review.{lookup}
use chatbot_win.ConfirmQueue.Moves.Calls.{Call, step, run}
use chatbot_win.ConfirmQueue.Moves.Refine.{Move}
use chatbot_win.ConfirmQueue.Moves.Evolutions.{
  queue_id-Move, Dropped, head, later, Evolves, same, moved, added, dropped, Removes,
}
use chatbot_win.ConfirmQueue.Moves.Queues.{step-Steps}

-- The record stays as it is, or makes one move.
abbrev pub Fate : Call → Item → Item → Type 0
Fate call x y = (y ≡ x) ⊎ Move call x y

abbrev pub Survives : Call → Item → List Item → String → Type 0
Survives call x ys k = (y : Item) × (find (has_id k) ys ≡ some y) × Fate call x y

One-Survives :
    (call : Call) (k : String) (x : Item) {xs ys : List Item}
    → One (Move call) xs ys
    → find (has_id k) xs ≡ some x
    → Survives call x ys k
One-Survives call k x (here {x = a} {y = b} m) h = elim (Bool-cases (has_id k a)) [
  | inl e ↦
      let same_id : has_id k b ≡ true = rw (queue_id-Move call a b m) e in
      let found : some a ≡ some x = rw e at h in
      (b, rw same_id refl, inr (subst (λ z. Move call z b) (cc found) m))
  | inr e ↦
      let other_id : has_id k b ≡ false = rw (queue_id-Move call a b m) e in
      (x, rw other_id (rw e at h), inl refl)
]
One-Survives call k x (there {x = a} o) h = elim (Bool-cases (has_id k a)) [
  | inl e ↦ (x, rw e (rw e at h), inl refl)
  | inr e ↦ let (y, found, f) = One-Survives call k x o (rw e at h) in (y, rw e found, f)
]

find-append :
    (k : String) (x z : Item) (xs : List Item)
    → find (has_id k) xs ≡ some x
    → find (has_id k) (xs ++ z ∷ []) ≡ some x
find-append k x z [] h = cc
find-append k x z (a ∷ rest) h = elim (Bool-cases (has_id k a)) [
  | inl e ↦ rw e (rw e at h)
  | inr e ↦ rw e (find-append k x z rest (rw e at h))
]

Dropped-Survives :
    (j k : String) (x : Item) {xs ys : List Item}
    → j ≢ k
    → Dropped j xs ys
    → find (has_id k) xs ≡ some x
    → find (has_id k) ys ≡ some x
Dropped-Survives j k x ne (head {x = a} e f) h =
    ground (arith, eq_iff a.queue_id j, eq_iff a.queue_id k)
Dropped-Survives j k x ne (later {x = a} d) h = elim (Bool-cases (has_id k a)) [
  | inl e ↦ rw e (rw e at h)
  | inr e ↦ rw e (Dropped-Survives j k x ne d (rw e at h))
]

Evolves-Survives :
    (call : Call) (k : String) (x : Item) {xs ys : List Item}
    → ¬ Removes call k
    → Evolves call xs ys
    → find (has_id k) xs ≡ some x
    → Survives call x ys k
Evolves-Survives call k x keeps (same e) h = (x, rw e h, inl refl)
Evolves-Survives call k x keeps (moved o) h = One-Survives call k x o h
Evolves-Survives call k x keeps (added z p c n e) h = (x, rw e (find-append k x z _ h), inl refl)
Evolves-Survives call k x keeps (dropped j r d) h =
    (x, Dropped-Survives j k x (λ e. keeps (subst (Removes call) e r)) d h, inl refl)

-- One call that does not remove the record.
pub record-step :
    (env : Env) (call : Call) (k : String) (x : Item) (q : Queue)
    → IsValid q
    → ¬ Removes call k
    → lookup k q ≡ some x
    → (y : Item) × (lookup k (step env call q) ≡ some y) × Fate call x y
unfolding lookup
record-step env call k x q v keeps h = Evolves-Survives call k x keeps (step-Steps env call q v).0 h

-- Every call of a history passes the test.
abbrev pub Every : (Call → Type 0) → List (Env × Call) → Type 0
Every S [] = Unit
Every S ((env, call) ∷ calls) = S call × Every S calls

-- What the moves of the calls that are made keep holds of a record for as long as it is there.
pub run-keeps :
    (P : Item → Type 0) (S : Call → Type 0)
    (moves : (call : Call) (x y : Item) → S call → Move call x y → P x → P y)
    (calls : List (Env × Call)) (k : String) (x : Item) (q : Queue)
    → IsValid q
    → Every S calls
    → Every (λ call. ¬ Removes call k) calls
    → lookup k q ≡ some x
    → P x
    → (y : Item) × (lookup k (run calls q) ≡ some y) × P y
unfolding run
run-keeps P S moves [] k x q v a s h p = (x, h, p)
run-keeps P S moves ((env, call) ∷ calls) k x q v a s h p =
    let (y, found, fate) = record-step env call k x q v s.0 h in
    run-keeps P S moves calls k y (step env call q) (step-Steps env call q v).1 a.1 s.1 found
      (elim fate [ inl e ↦ rw e p | inr m ↦ moves call x y a.0 m p ])
