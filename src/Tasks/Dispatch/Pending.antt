-- ===== src/Tasks/Dispatch/Pending.antt =====
-- The tasks that the scheduling loop has not come to (tasks/manager.py, `claim_next`): each still
-- stands in the records under its id, and once.
use chatbot_win.Prelude.{
  ℕ, String, false, some, List, [], ◌∷◌, ◌≡◌, refl, arith, All, find, ◌==◌, eq_iff, eq_refl,
  Bool-cases, inl, inr, ltb,
}
use chatbot_win.Tasks.Record.{Task, has_id, replace}
use chatbot_win.Tasks.Scores.{insert_by, sort_by}
use chatbot_win.Tasks.Dispatch.Counts.{find-replace}

-- The records' ids differ.
abbrev pub Distinct : List Task → Type 0
Distinct [] = Unit
Distinct (t ∷ ts) = All (λ u. t.task_id == u.task_id ≡ false) ts × Distinct ts

abbrev pub Found : List Task → List Task → Type 0
Found tasks ts = All (λ u. find (has_id u.task_id) tasks ≡ some u) ts

Found-cons :
    (t : Task) (xs ys : List Task)
    → All (λ u. t.task_id == u.task_id ≡ false) ys
    → Found xs ys
    → Found (t ∷ xs) ys
Found-cons t xs [] d f = tt
Found-cons t xs (y ∷ ys) (n, d) (e, f) = (rw n e, Found-cons t xs ys d f)

pub Distinct-Found : (ts : List Task) → Distinct ts → Found ts ts
Distinct-Found [] d = tt
Distinct-Found (t ∷ ts) (n, d) =
    (rw (eq_refl t.task_id) refl, Found-cons t ts ts n (Distinct-Found ts d))

pub Found-replace :
    (t u : Task) (xs ys : List Task)
    → u.task_id ≡ t.task_id
    → All (λ y. t.task_id == y.task_id ≡ false) ys
    → Found xs ys
    → Found (replace xs t.task_id u) ys
Found-replace t u xs [] e d f = tt
Found-replace t u xs (y ∷ ys) e (n, d) (h, f) =
    (rw (find-replace xs y.task_id t.task_id u e n) h, Found-replace t u xs ys e d f)

All-insert :
    (P : Task → Type 0) (score : Task → ℕ) (t : Task) (us : List Task)
    → P t
    → All P us
    → All P (insert_by score t us)
unfolding insert_by
All-insert P score t [] p ps = (p, tt)
All-insert P score t (u ∷ us) p (q, qs) = elim (Bool-cases (ltb (score t) (score u))) [
  | inl e ↦ rw e (q, All-insert P score t us p qs)
  | inr e ↦ rw e (p, (q, qs))
]

pub All-sort :
    (P : Task → Type 0) (score : Task → ℕ) (ts : List Task) → All P ts → All P (sort_by score ts)
unfolding sort_by
All-sort P score [] ps = tt
All-sort P score (t ∷ ts) (p, ps) =
    All-insert P score t (sort_by score ts) p (All-sort P score ts ps)

apart_sym : (a b : String) → a == b ≡ false → b == a ≡ false
apart_sym a b n = ground (arith, eq_iff a b, eq_iff b a)

Distinct-insert :
    (score : Task → ℕ) (t : Task) (us : List Task)
    → All (λ u. t.task_id == u.task_id ≡ false) us
    → Distinct us
    → Distinct (insert_by score t us)
unfolding insert_by
Distinct-insert score t [] a d = (tt, tt)
Distinct-insert score t (u ∷ us) (n, a) (m, d) = elim (Bool-cases (ltb (score t) (score u))) [
  | inl e ↦ rw e (
    All-insert (λ x. u.task_id == x.task_id ≡ false) score t us (apart_sym t.task_id u.task_id n) m,
    Distinct-insert score t us a d,
  )
  | inr e ↦ rw e ((n, a), (m, d))
]

pub Distinct-sort : (score : Task → ℕ) (ts : List Task) → Distinct ts → Distinct (sort_by score ts)
unfolding sort_by
Distinct-sort score [] d = tt
Distinct-sort score (t ∷ ts) (n, d) =
    Distinct-insert score t (sort_by score ts)
      (All-sort (λ x. t.task_id == x.task_id ≡ false) score ts n) (Distinct-sort score ts d)
