-- ===== src/Tasks/Store/Finished.antt =====
-- What ends a task, and what a merge keeps (tasks/manager.py).
use chatbot_win.Prelude.{
  All, ◌∙◌, ℕ, zero, suc, String, Bool, true, false, Option, none, some, List, [], ◌∷◌, ◌≤◌, ◌≡◌,
  refl, inl, inr, arith, Bool-cases, nonempty, strip, take, count, length, length-take-le,
}
use chatbot_win.Tasks.Record.{Status, Task, is_terminal}
use chatbot_win.Tasks.Scores.{Env}
use chatbot_win.Tasks.Merge.{Patch, apply_patch, stamp, merge_task, patched_progress}
use chatbot_win.Tasks.Store.{
  text_lt, insert_latest, latest_first, bounded_task_records, Repair, is_active_of, finish_each,
  finish_external,
}

count-insert :
    (p : Task → Bool) (t : Task) (us : List Task) → count p (insert_latest t us) ≡ count p (t ∷ us)
unfolding insert_latest
count-insert p t [] = refl
count-insert p t (u ∷ us) = elim (Bool-cases (text_lt t.updated_at u.updated_at)) [
  | inl e ↦ rw e (omega (arith, count-insert p t us))
  | inr e ↦ rw e refl
]

count-latest_first : (p : Task → Bool) (ts : List Task) → count p (latest_first ts) ≡ count p ts
unfolding latest_first
count-latest_first p [] = refl
count-latest_first p (t ∷ ts) =
    omega (arith, count-insert p t (latest_first ts), count-latest_first p ts)

count-take : (p : Task → Bool) (n : ℕ) (ts : List Task) → count p (take n ts) ≤ count p ts
count-take p zero ts = omega arith
count-take p (suc n) [] = omega arith
count-take p (suc n) (t ∷ ts) = omega (arith, count-take p n ts)

count-bounded : (p : Task → Bool) (ts : List Task) → count p (bounded_task_records ts) ≤ count p ts
unfolding bounded_task_records
count-bounded p ts = omega (arith, count-take p 500 (latest_first ts), count-latest_first p ts)

merged-terminal :
    (env : Env) (t : Task) (p : Patch) (s : Status)
    → p.status ≡ some s
    → is_terminal s ≡ true
    → is_terminal (merge_task env t p).status ≡ true
unfolding merge_task apply_patch stamp
merged-terminal env t p s e h = rw e h

count-finish_each :
    (env : Env) (e : String) (p : Patch) (s : Status) (ts : List Task)
    → p.status ≡ some s
    → is_terminal s ≡ true
    → count (is_active_of e) (finish_each env e p ts) ≡ 0
unfolding finish_each
count-finish_each env e p s [] q h = refl
count-finish_each env e p s (t ∷ ts) q h = elim (Bool-cases (is_active_of e t)) [
  | inl a ↦
      let m = merged-terminal env t p s q h in
      rw (a, m) (ground (arith, count-finish_each env e p s ts q h))
  | inr a ↦ rw (a, a) (ground (arith, count-finish_each env e p s ts q h))
]

-- With a patch that sets a terminal status, `finish_external` on an id that is not blank leaves no
-- active record with that external id, and at most 500 records.
pub finish_external-active :
    (env : Env) (repair : Repair) (e : String) (p : Patch) (s : Status) (tasks : List Task)
    → nonempty (strip e) ≡ true
    → p.status ≡ some s
    → is_terminal s ≡ true
    → (count (is_active_of (strip e)) (finish_external env repair e p tasks) ≡ 0)
      × (length (finish_external env repair e p tasks) ≤ 500)
unfolding finish_external bounded_task_records
finish_external-active env repair e p s tasks n q h = rw n (
  omega (
    arith,
    count-bounded (is_active_of (strip e)) (finish_each env (strip e) p (repair tasks)),
    count-finish_each env (strip e) p s (repair tasks) q h,
  ),
  length-take-le 500 (latest_first (finish_each env (strip e) p (repair tasks))),
)

-- A merge of one of the patches, at its clock.
abbrev pub merge_each : List (Env × Patch) → Task → Task
merge_each [] t = t
merge_each ((env, p) ∷ more) t = merge_each more (merge_task env t p)

-- A patch that leaves the two times to the merge.
abbrev pub Untimed : Env × Patch → Type 0
Untimed (env, p) = (p.started_at ≡ none) × (p.finished_at ≡ none)

-- What later patches leave of a record.
pub record Kept (t u : Task) : Type 0 where
  pub started : nonempty t.started_at ≡ true → u.started_at ≡ t.started_at
  pub finished : nonempty t.finished_at ≡ true → u.finished_at ≡ t.finished_at
  pub bounded : t.progress ≤ 100 → u.progress ≤ 100

progress-merge_task :
    (env : Env) (t : Task) (p : Patch) → t.progress ≤ 100 → (merge_task env t p).progress ≤ 100
unfolding merge_task apply_patch stamp
progress-merge_task env t p b = within p.progress t.progress b
  where
    within : (m : Option ℕ) (k : ℕ) → k ≤ 100 → patched_progress m k ≤ 100
    within none k b = b
    within (some m) k b = omega arith

merge_task-Kept :
    (env : Env) (t : Task) (p : Patch) → Untimed (env, p) → Kept t (merge_task env t p)
unfolding merge_task apply_patch stamp
merge_task-Kept env t p (s, f) = record {
  started = λ h. rw (s, h) (ground arith);
  finished = λ h. rw (f, h) (ground arith);
  bounded = progress-merge_task env t p;
}

merge_each-Kept :
    (more : List (Env × Patch)) (t : Task) → All Untimed more → Kept t (merge_each more t)
merge_each-Kept [] t us = record { started = λ h. refl; finished = λ h. refl; bounded = λ b. b }
merge_each-Kept ((env, p) ∷ more) t (u, us) =
    let k = merge_task-Kept env t p u in
    let m = merge_each-Kept more (merge_task env t p) us in
    record {
      started = λ h. m.started (rw (k.started h) h) ∙ k.started h;
      finished = λ h. m.finished (rw (k.finished h) h) ∙ k.finished h;
      bounded = λ b. m.bounded (k.bounded b);
    }

ended_at :
    (env : Env) (p : Patch) (s : Status) (t : Task)
    → nonempty t.finished_at ≡ false
    → p.status ≡ some s
    → is_terminal s ≡ true
    → Untimed (env, p)
    → (merge_task env t p).finished_at ≡ env.now_iso
unfolding merge_task apply_patch stamp
ended_at env p s t blank e ends (a, f) = rw (e, f, ends, blank) refl

-- A record with no finish time that a patch ends has the clock of that patch as its finish time for
-- good: later patches that do not name the times themselves never change it, even when they resume the
-- task and end it again, nor a start time that it had; and a progress within 100 stays so.
pub merge_each-finished :
    (env : Env) (p : Patch) (s : Status) (t : Task) (more : List (Env × Patch))
    → nonempty env.now_iso ≡ true
    → nonempty t.finished_at ≡ false
    → p.status ≡ some s
    → is_terminal s ≡ true
    → All Untimed ((env, p) ∷ more)
    → ((merge_each ((env, p) ∷ more) t).finished_at ≡ env.now_iso)
      × (nonempty t.started_at ≡ true → (merge_each ((env, p) ∷ more) t).started_at ≡ t.started_at)
      × (t.progress ≤ 100 → (merge_each ((env, p) ∷ more) t).progress ≤ 100)
merge_each-finished env p s t more n blank e ends (u, us) =
    let now = ended_now in
    let m = merge_each-Kept more (merge_task env t p) us in
    let all = merge_each-Kept ((env, p) ∷ more) t (u, us) in
    (m.finished (rw now n) ∙ now, all.started, all.bounded)
  where
    ended_now : (merge_task env t p).finished_at ≡ env.now_iso
    ended_now = ended_at env p s t blank e ends u
