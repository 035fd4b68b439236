-- ===== src/Tasks/Store/Identities.antt =====
-- The ids of the records stay apart (tasks/manager.py).
use chatbot_win.Prelude.{
  ℕ, zero, suc, String, false, none, some, List, [], ◌∷◌, ◌++◌, ◌≡◌, refl, sym, ap, ◌∙◌, arith, inl,
  inr, Bool-cases, Option-cases, All, find, take, ◌==◌, eq_iff,
}
use chatbot_win.Tasks.Record.{Task, has_id, replace}
use chatbot_win.Tasks.Scores.{Env}
use chatbot_win.Tasks.Merge.{Patch, merge_task}
use chatbot_win.Tasks.Dispatch.Pending.{Distinct}
use chatbot_win.Tasks.Store.{
  text_lt, insert_latest, latest_first, bounded_task_records, Repair, new_task, create,
}

abbrev Apart : Task → List Task → Type 0
Apart t us = All (λ u. t.task_id == u.task_id ≡ false) us

apart_sym : (a b : String) → a == b ≡ false → b == a ≡ false
apart_sym a b n = ground (arith, eq_iff a b, eq_iff b a)

Apart-insert :
    (t u : Task) (us : List Task)
    → t.task_id == u.task_id ≡ false
    → Apart t us
    → Apart t (insert_latest u us)
unfolding insert_latest
Apart-insert t u [] n a = (n, tt)
Apart-insert t u (x ∷ us) n (m, a) = elim (Bool-cases (text_lt u.updated_at x.updated_at)) [
  | inl e ↦ rw e (m, Apart-insert t u us n a)
  | inr e ↦ rw e (n, (m, a))
]

Apart-latest_first : (t : Task) (us : List Task) → Apart t us → Apart t (latest_first us)
unfolding latest_first
Apart-latest_first t [] a = tt
Apart-latest_first t (u ∷ us) (n, a) =
    Apart-insert t u (latest_first us) n (Apart-latest_first t us a)

Distinct-insert :
    (t : Task) (us : List Task) → Apart t us → Distinct us → Distinct (insert_latest t us)
unfolding insert_latest
Distinct-insert t [] a d = (tt, tt)
Distinct-insert t (u ∷ us) (n, a) (m, d) = elim (Bool-cases (text_lt t.updated_at u.updated_at)) [
  | inl e ↦ rw e (Apart-insert u t us (apart_sym t.task_id u.task_id n) m, Distinct-insert t us a d)
  | inr e ↦ rw e ((n, a), (m, d))
]

Distinct-latest_first : (ts : List Task) → Distinct ts → Distinct (latest_first ts)
unfolding latest_first
Distinct-latest_first [] d = tt
Distinct-latest_first (t ∷ ts) (a, d) =
    Distinct-insert t (latest_first ts) (Apart-latest_first t ts a) (Distinct-latest_first ts d)

Apart-take : (t : Task) (n : ℕ) (us : List Task) → Apart t us → Apart t (take n us)
Apart-take t zero us a = tt
Apart-take t (suc n) [] a = tt
Apart-take t (suc n) (u ∷ us) (m, a) = (m, Apart-take t n us a)

Distinct-take : (n : ℕ) (ts : List Task) → Distinct ts → Distinct (take n ts)
Distinct-take zero ts d = tt
Distinct-take (suc n) [] d = tt
Distinct-take (suc n) (t ∷ ts) (a, d) = (Apart-take t n ts a, Distinct-take n ts d)

Distinct-bounded : (ts : List Task) → Distinct ts → Distinct (bounded_task_records ts)
unfolding bounded_task_records
Distinct-bounded ts d = Distinct-take 500 (latest_first ts) (Distinct-latest_first ts d)

Apart-append :
    (t u : Task) (us : List Task)
    → Apart t us
    → t.task_id == u.task_id ≡ false
    → Apart t (us ++ u ∷ [])
Apart-append t u [] a n = (n, tt)
Apart-append t u (x ∷ us) (m, a) n = (m, Apart-append t u us a n)

-- A record under an id that none has.
Distinct-append :
    (u : Task) (k : String) (ts : List Task)
    → u.task_id ≡ k
    → find (has_id k) ts ≡ none
    → Distinct ts
    → Distinct (ts ++ u ∷ [])
Distinct-append u k [] e f d = (tt, tt)
Distinct-append u k (t ∷ ts) e f (a, d) = elim (Bool-cases (has_id k t)) [
  | inl h ↦ absurd (cc (rw h at f))
  | inr h ↦ (Apart-append t u ts a (rw e h), Distinct-append u k ts e (rw h at f) d)
]

Apart-replace :
    (t u : Task) (k : String) (us : List Task)
    → t.task_id == u.task_id ≡ false
    → Apart t us
    → Apart t (replace us k u)
unfolding replace
Apart-replace t u k [] n a = (n, tt)
Apart-replace t u k (x ∷ us) n (m, a) = elim (Bool-cases (has_id k x)) [
  | inl e ↦ rw e (n, a)
  | inr e ↦ rw e (m, Apart-replace t u k us n a)
]

Distinct-replace :
    (u : Task) (k : String) (ts : List Task)
    → u.task_id ≡ k
    → Distinct ts
    → Distinct (replace ts k u)
unfolding replace
Distinct-replace u k [] e d = (tt, tt)
Distinct-replace u k (t ∷ ts) e (a, d) = elim (Bool-cases (has_id k t)) [
  | inl h ↦
      let same : u.task_id ≡ t.task_id = e ∙ sym ((eq_iff t.task_id k).0 h) in rw h (rw same a, d)
  | inr h ↦ rw h (Apart-replace t u k ts (rw e h) a, Distinct-replace u k ts e d)
]

merge_task-task_id : (env : Env) (t : Task) (p : Patch) → (merge_task env t p).task_id ≡ t.task_id
unfolding merge_task
merge_task-task_id env t p = refl

new_task-task_id : (env : Env) (k : String) (p : Patch) → (new_task env k p).task_id ≡ k
unfolding new_task
new_task-task_id env k p = refl

find-has_id : (k : String) (ts : List Task) (t : Task) → find (has_id k) ts ≡ some t → t.task_id ≡ k
find-has_id k [] t h = cc
find-has_id k (x ∷ ts) t h = elim (Bool-cases (has_id k x)) [
  | inl e ↦
      let same : x ≡ t = cc (rw e at h) in ap (λ z. z.task_id) (sym same) ∙ (eq_iff x.task_id k).0 e
  | inr e ↦ find-has_id k ts t (rw e at h)
]

-- When the repaired records have different ids, so have the records after `create`, whether it makes a
-- new one or merges into the one that is there.
pub create-Distinct :
    (env : Env) (repair : Repair) (k : String) (p : Patch) (tasks : List Task)
    → Distinct (repair tasks)
    → Distinct (create env repair k p tasks).0
unfolding create
create-Distinct env repair k p tasks d = elim (Option-cases (find (has_id k) (repair tasks))) [
  | inl n ↦ rw n (
      Distinct-bounded (repair tasks ++ new_task env k p ∷ [])
        (Distinct-append (new_task env k p) k (repair tasks) (new_task-task_id env k p) n d))
  | inr (t, h) ↦ rw h (
      Distinct-bounded (replace (repair tasks) k (merge_task env t p)) (
        Distinct-replace (merge_task env t p) k (repair tasks)
          (merge_task-task_id env t p ∙ find-has_id k (repair tasks) t h) d))
]
