-- ===== src/Tasks/Dispatch/Claimed.antt =====
-- The tasks that `claim_next` (tasks/manager.py) claims.
use chatbot_win.Prelude.{
  Bool, ◌&&◌, ◌||◌, any, all, keep, mem, mem-add, nonempty, strip, ◌⊎◌, String, true, false, some,
  List, [], ◌∷◌, ◌≤◌, ◌≡◌, refl, sym, inl, inr, arith, find, All, ◌==◌, eq_iff, eq_refl, Bool-cases,
  length, ◌++◌, length-append,
}
use chatbot_win.Tasks.Record.{
  status_eq, status_eq-eq, queued, running, completed, resource_of, dependencies_satisfied, Task,
  has_id, is_running, replace, completed_task_ids,
}
use chatbot_win.Tasks.Scores.{Env, channel_control_blocks}
use chatbot_win.Tasks.Merge.{merge_task, apply_patch, stamp}
use chatbot_win.Tasks.Dispatch.{
  Request, Round, is_empty, eligible, claim_task, claim_round, first_round, schedule,
}
use chatbot_win.Tasks.Dispatch.Counts.{find-replace}
use chatbot_win.Tasks.Dispatch.Pending.{Distinct}
use chatbot_win.Tasks.Dispatch.Tallies.{Tally, claim_task-task_id}
use chatbot_win.Tasks.Dispatch.Rounds.{Allowed, schedule-keeps}

pub find-replace_same :
    (xs : List Task) (k : String) (t u : Task)
    → find (has_id k) xs ≡ some t
    → u.task_id ≡ k
    → find (has_id k) (replace xs k u) ≡ some u
unfolding replace
find-replace_same [] k t u h e = cc
find-replace_same (x ∷ xs) k t u h e = elim (Bool-cases (has_id k x)) [
  | inl f ↦ rw (f, e, eq_refl k) refl
  | inr f ↦ rw (f, f) (find-replace_same xs k t u (rw f at h) e)
]

All-append : (P : Task → Type 0) (xs : List Task) (u : Task) → All P xs → P u → All P (xs ++ u ∷ [])
All-append P [] u ps p = (p, tt)
All-append P (x ∷ xs) u (q, ps) p = (q, All-append P xs u ps p)

-- A task of this id has the status completed.
abbrev pub is_done : List Task → String → Bool
is_done tasks d = any (λ t. status_eq t.status completed && t.task_id == d) tasks

-- The record of a claimed task: what it was before, and what the claim wrote.
pub record Origin (env : Env) (r : Request) (tasks : List Task) (u : Task) : Type 0 where
  pub before : Task
  pub stood : find (has_id u.task_id) tasks ≡ some before
  pub was_queued : before.status ≡ queued
  pub not_blocked : channel_control_blocks env r.controls before.conversation_id ≡ false
  pub resource_allowed : (r.allowed ≡ []) ⊎ (mem (resource_of before) r.allowed ≡ true)
  pub dependencies_done :
      All (λ d. nonempty (strip d) ≡ true → is_done tasks d ≡ true) before.dependencies
  pub runs : u.status ≡ running
  pub worker : u.assigned_worker ≡ r.worker
  pub begun : 1 ≤ u.progress
  pub same_conversation : u.conversation_id ≡ before.conversation_id
  pub same_priority : u.priority ≡ before.priority
  pub same_key : u.concurrency_key ≡ before.concurrency_key
  pub same_resource : u.resource_class ≡ before.resource_class

mem-completed_task_ids :
    (d : String) (tasks : List Task)
    → mem d (completed_task_ids tasks) ≡ true
    → is_done tasks d ≡ true
unfolding completed_task_ids
mem-completed_task_ids d [] h = h
mem-completed_task_ids d (t ∷ ts) h =
    elim (Bool-cases (status_eq t.status completed && nonempty t.task_id)) [
      | inr e ↦ ground (arith, mem-completed_task_ids d ts (rw e at h))
      | inl e ↦ ground (
        arith,
        mem-completed_task_ids d ts,
        mem-add t.task_id d (completed_task_ids ts),
        rw e at h,
      )
    ]

dependencies_done-of :
    (tasks : List Task) (ds : List String)
    → all (λ d. mem d (completed_task_ids tasks)) (keep (λ d. nonempty (strip d)) ds) ≡ true
    → All (λ d. nonempty (strip d) ≡ true → is_done tasks d ≡ true) ds
dependencies_done-of tasks [] h = tt
dependencies_done-of tasks (d ∷ ds) h = elim (Bool-cases (nonempty (strip d))) [
  | inr e ↦ (λ f. absurd (ground (arith, e, f)), dependencies_done-of tasks ds (rw e at h))
  | inl e ↦ (
    λ f. mem-completed_task_ids d tasks (ground (arith, rw e at h)),
    dependencies_done-of tasks ds (ground (arith, rw e at h)),
  )
]

Origin-eligible :
    (env : Env) (r : Request) (tasks : List Task) (t : Task)
    → find (has_id t.task_id) tasks ≡ some t
    → eligible env r (completed_task_ids tasks) t ≡ true
    → Origin env r tasks (claim_task env r t)
unfolding eligible dependencies_satisfied claim_task merge_task apply_patch stamp
Origin-eligible env r tasks t stood h = record {
  before = t;
  stood = stood;
  was_queued = status_eq-eq t.status queued (ground (arith, h));
  not_blocked = ground (arith, h);
  resource_allowed = allowed r.allowed (ground (arith, h));
  dependencies_done = dependencies_done-of tasks t.dependencies (ground (arith, h));
  runs = refl;
  worker = refl;
  begun = omega arith;
  same_conversation = refl;
  same_priority = refl;
  same_key = refl;
  same_resource = refl;
}
  where
    allowed :
        (xs : List String)
        → (is_empty xs || mem (resource_of t) xs) ≡ true
        → (xs ≡ []) ⊎ (mem (resource_of t) xs ≡ true)
    allowed [] e = inl refl
    allowed (x ∷ xs) e = inr e

record Claims (env : Env) (r : Request) (tasks : List Task) (s : Round) : Type 0 where
  pub origins : All (Origin env r tasks) s.claimed
  pub resting :
      (j : String) (t : Task)
      → find (has_id j) s.tasks ≡ some t
      → is_running t ≡ false
      → find (has_id j) tasks ≡ some t

claim_round-claimed :
    (env : Env) (r : Request) (t : Task) (s : Round)
    → (claim_round env r t s).claimed ≡ s.claimed ++ claim_task env r t ∷ []
unfolding claim_round
claim_round-claimed env r t s = refl

pub claim_round-tasks :
    (env : Env) (r : Request) (t : Task) (s : Round)
    → (claim_round env r t s).tasks ≡ replace s.tasks t.task_id (claim_task env r t)
unfolding claim_round
claim_round-tasks env r t s = refl

pub claim_task-running :
    (env : Env) (r : Request) (t : Task) → is_running (claim_task env r t) ≡ true
unfolding claim_task
claim_task-running env r t = refl

module _ (env : Env) (r : Request) (tasks : List Task) where
  claim_round-resting :
      (t : Task) (s : Round)
      → Allowed env r (completed_task_ids tasks) t s
      → Claims env r tasks s
      → (j : String) (u : Task) → find (has_id j) (claim_round env r t s).tasks ≡ some u
      → is_running u ≡ false
      → find (has_id j) tasks ≡ some u
  claim_round-resting t s a c j u h n = elim (Bool-cases (t.task_id == j)) [
    | inl e ↦
        let at_id : find (has_id t.task_id) (claim_round env r t s).tasks
            ≡ some (claim_task env r t) =
          rw claim_round-tasks (
            find-replace_same s.tasks t.task_id t (claim_task env r t) a.claimable.found
              (claim_task-task_id env r t)) in
        let at_j : find (has_id j) (claim_round env r t s).tasks ≡ some (claim_task env r t) =
          rw (sym ((eq_iff t.task_id j).0 e)) at_id in
        let runs = claim_task-running env r t in cc
    | inr e ↦
        c.resting j u
          (rw
            (
              claim_round-tasks,
              find-replace s.tasks j t.task_id (claim_task env r t) (claim_task-task_id env r t) e,
            )
            at h)
          n
  ]

  claim_round-Claims :
      (t : Task) (s : Round)
      → Allowed env r (completed_task_ids tasks) t s
      → Tally s
      → Claims env r tasks s
      → Claims env r tasks (claim_round env r t s)
  claim_round-Claims t s a y c = record {
    origins = rw claim_round-claimed (
        All-append (Origin env r tasks) s.claimed (claim_task env r t) c.origins (
          Origin-eligible env r tasks t (c.resting t.task_id t a.claimable.found a.claimable.rests)
            a.eligible_then));
    resting = claim_round-resting t s a c;
  }

first_round-Claims :
    (env : Env) (r : Request) (tasks : List Task) → Claims env r tasks (first_round tasks)
unfolding first_round
first_round-Claims env r tasks = record { origins = tt; resting = λ j t h n. h }

-- For records whose ids differ: every claimed task is the record that stood under its id, which was
-- queued, not held back by its channel, of an allowed resource, and with every dependency that is not
-- blank completed; it runs, for the worker that asked, with some progress, and its conversation,
-- priority, concurrency key and resource are those it had.
pub schedule-claimed :
    (env : Env) (r : Request) (tasks : List Task)
    → Distinct tasks
    → All (Origin env r tasks) (schedule env r tasks).claimed
schedule-claimed env r tasks d =
    (schedule-keeps env r (completed_task_ids tasks) (Claims env r tasks)
      (claim_round-Claims env r tasks) tasks refl d (first_round-Claims env r tasks)).origins

claim_round-max_claims :
    (env : Env) (r : Request) (ids : List String) (t : Task) (s : Round)
    → Allowed env r ids t s
    → Tally s
    → length s.claimed ≤ r.max_claims
    → length (claim_round env r t s).claimed ≤ r.max_claims
claim_round-max_claims env r ids t s a y h =
    rw (claim_round-claimed, length-append) (omega (arith, a.under_max))

first_round-claimed : (tasks : List Task) → (first_round tasks).claimed ≡ []
unfolding first_round
first_round-claimed tasks = refl

-- For records whose ids differ: no more tasks are claimed than `max_claims`.
pub schedule-max_claims :
    (env : Env) (r : Request) (tasks : List Task)
    → Distinct tasks
    → length (schedule env r tasks).claimed ≤ r.max_claims
schedule-max_claims env r tasks d =
    schedule-keeps env r (completed_task_ids tasks) (λ s. length s.claimed ≤ r.max_claims)
      (claim_round-max_claims env r (completed_task_ids tasks)) tasks refl d
      (rw first_round-claimed (omega arith))
