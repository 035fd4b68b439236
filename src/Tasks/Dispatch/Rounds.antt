-- ===== src/Tasks/Dispatch/Rounds.antt =====
-- The rounds of the scheduling loop of `claim_next` (tasks/manager.py): what a claim has tested, and
-- what every claim keeps, the loop keeps.
use chatbot_win.Prelude.{
  ℕ, String, true, false, ◌&&◌, some, List, [], ◌∷◌, ◌<◌, ◌≡◌, refl, sym, ◌⊎◌, inl, inr, arith, leb,
  find, All, ◌==◌, Bool-cases, length,
}
use chatbot_win.Tasks.Record.{queued, Task, has_id, status_eq, completed_task_ids}
use chatbot_win.Tasks.Scores.{Env, sort_by, dispatch_priority_score}
use chatbot_win.Tasks.Dispatch.{
  Request, Round, eligible, has_room, claim_task, claim_round, try_claim, claim_loop, first_round,
  schedule,
}
use chatbot_win.Tasks.Dispatch.Pending.{
  Distinct, Found, Distinct-Found, Found-replace, All-sort, Distinct-sort,
}
use chatbot_win.Tasks.Dispatch.Tallies.{
  Tally, Claimable, queued_rests, claim_task-task_id, claim_round-Tally, first_round-Tally,
}

-- The tests that `eligible` begins with.
pub eligible-queued :
    (env : Env) (r : Request) (ids : List String) (t : Task)
    → eligible env r ids t ≡ true
    → status_eq t.status queued ≡ true
unfolding eligible
eligible-queued env r ids t h = ground arith

-- What `try_claim` has tested of a task it claims.
pub record Allowed (env : Env) (r : Request) (ids : List String) (t : Task) (s : Round)
    : Type 0 where
  pub claimable : Claimable env r s t
  pub eligible_then : eligible env r ids t ≡ true
  pub under_max : length s.claimed < r.max_claims

-- The task is claimed, or nothing changes.
pub try_claim-cases :
    (env : Env) (r : Request) (ids : List String) (t : Task) (s : Round)
    → find (has_id t.task_id) s.tasks ≡ some t
    → (try_claim env r ids t s ≡ s)
      ⊎ ((try_claim env r ids t s ≡ claim_round env r t s) × Allowed env r ids t s)
unfolding try_claim
try_claim-cases env r ids t s f = elim (Bool-cases (leb r.max_claims (length s.claimed))) [
  | inl e ↦ inl (rw e refl)
  | inr e ↦ elim (Bool-cases (eligible env r ids t && has_room r s t)) [
    | inr g ↦ inl (rw (e, g) refl)
    | inl g ↦
        let passed : eligible env r ids t ≡ true = ground arith in
        inr (
          rw (e, g) refl,
          record {
            claimable = record {
              found = f;
              rests = queued_rests t (eligible-queued env r ids t passed);
              room = ground arith;
            };
            eligible_then = passed;
            under_max = ground arith;
          },
        )
  ]
]

pub Found-claim_round :
    (env : Env) (r : Request) (t : Task) (s : Round) (ts : List Task)
    → All (λ y. t.task_id == y.task_id ≡ false) ts
    → Found s.tasks ts
    → Found (claim_round env r t s).tasks ts
unfolding claim_round
Found-claim_round env r t s ts n f =
    Found-replace t (claim_task env r t) s.tasks ts (claim_task-task_id env r t) n f

pub Found-first_round :
    (tasks : List Task) (score : Task → ℕ)
    → Distinct tasks
    → Found (first_round tasks).tasks (sort_by score tasks)
unfolding first_round
Found-first_round tasks score d =
    All-sort (λ u. find (has_id u.task_id) tasks ≡ some u) score tasks (Distinct-Found tasks d)

-- A property of rounds that every claim keeps holds after the loop.
module _ (env : Env) (r : Request) (ids : List String) (Q : Round → Type 0)
    (kept : (t : Task) (s : Round)
      → Allowed env r ids t s
      → Tally s
      → Q s
      → Q (claim_round env r t s)) where
  claim_loop-keeps :
      (ts : List Task) (s : Round)
      → Distinct ts
      → Found s.tasks ts
      → Tally s
      → Q s
      → Q (claim_loop env r ids ts s)
  unfolding claim_loop
  claim_loop-keeps [] s d f y q = q
  claim_loop-keeps (t ∷ ts) s (n, d) (h, f) y q = elim (try_claim-cases env r ids t s h) [
    | inl e ↦ rw e (claim_loop-keeps ts s d f y q)
    | inr (e, a) ↦ rw e (
        claim_loop-keeps ts (claim_round env r t s) d (Found-claim_round env r t s ts n f)
          (claim_round-Tally env r t s y a.claimable) (kept t s a y q))
  ]

  pub schedule-keeps :
      (tasks : List Task)
      → ids ≡ completed_task_ids tasks
      → Distinct tasks
      → Q (first_round tasks)
      → Q (schedule env r tasks)
  unfolding schedule
  schedule-keeps tasks e d q = rw (sym e) (
      claim_loop-keeps (sort_by (dispatch_priority_score env r.controls ids) tasks)
        (first_round tasks) (Distinct-sort (dispatch_priority_score env r.controls ids) tasks d)
        (Found-first_round tasks (dispatch_priority_score env r.controls ids) d)
        (first_round-Tally tasks) q)
