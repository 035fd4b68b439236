-- ===== src/Tasks/Dispatch/Limits.antt =====
-- What the scheduling loop of `claim_next` (tasks/manager.py) keeps within its limits.
use chatbot_win.Prelude.{
  ℕ, String, Bool, true, false, List, ◌≤◌, ◌<◌, ◌≡◌, refl, sym, subst, inl, inr, arith, max,
  nonempty, count, eq_iff, Bool-cases,
}
use chatbot_win.Tasks.Record.{Task, is_running, resource_of, mutex_scope, completed_task_ids}
use chatbot_win.Tasks.Scores.{Env}
use chatbot_win.Tasks.Dispatch.{
  Request, Round, resource_limit, has_room, claim_task, claim_round, first_round, schedule,
}
use chatbot_win.Tasks.Dispatch.Counts.{runs_on, runs_in, runs_under}
use chatbot_win.Tasks.Dispatch.Pending.{Distinct}
use chatbot_win.Tasks.Dispatch.Tallies.{
  Tally, count-claim_round, claimed_on, claimed_in, claimed_under,
}
use chatbot_win.Tasks.Dispatch.Rounds.{Allowed, schedule-keeps}

-- The tests of `has_room`, against the records.
room_on :
    (r : Request) (t : Task) (s : Round)
    → has_room r s t ≡ true
    → Tally s
    → count (runs_on (resource_of t)) s.tasks < resource_limit r (resource_of t)
unfolding has_room
room_on r t s h y = ground (arith, y.resources (resource_of t))

room_in :
    (r : Request) (t : Task) (s : Round)
    → has_room r s t ≡ true
    → Tally s
    → nonempty t.conversation_id ≡ true
    → count (runs_in t.conversation_id) s.tasks < r.per_channel
unfolding has_room
room_in r t s h y n = ground (arith, y.conversations t.conversation_id n)

room_under :
    (r : Request) (t : Task) (s : Round)
    → has_room r s t ≡ true
    → Tally s
    → mutex_scope t.concurrency_key ≡ true
    → count (runs_under t.concurrency_key) s.tasks ≡ 0
unfolding has_room
room_under r t s h y m = ground (arith, y.keys t.concurrency_key m)

-- A kind of running task of which each claim leaves at most `limit`.
module _ (env : Env) (r : Request) (tasks : List Task) (p : Task → Bool) (limit : ℕ)
    (runs : (t : Task) → is_running t ≡ false → p t ≡ false)
    (below : (t : Task) (s : Round)
      → has_room r s t ≡ true
      → Tally s
      → p (claim_task env r t) ≡ true
      → count p s.tasks < limit) where
  claim_round-bound :
      (t : Task) (s : Round)
      → Allowed env r (completed_task_ids tasks) t s
      → Tally s
      → count p s.tasks ≤ max limit (count p tasks)
      → count p (claim_round env r t s).tasks ≤ max limit (count p tasks)
  claim_round-bound t s a y h =
      rw (count-claim_round env r t s p a.claimable (runs t a.claimable.rests))
        (elim (Bool-cases (p (claim_task env r t))) [
          | inl e ↦ rw e (omega (arith, below t s a.claimable.room y e))
          | inr e ↦ rw e (omega arith)
        ])

  first_round-bound : count p (first_round tasks).tasks ≤ max limit (count p tasks)
  unfolding first_round
  first_round-bound = omega arith

  schedule-bound : Distinct tasks → count p (schedule env r tasks).tasks ≤ max limit (count p tasks)
  schedule-bound d =
      schedule-keeps env r (completed_task_ids tasks)
        (λ s. count p s.tasks ≤ max limit (count p tasks)) claim_round-bound tasks refl d
        first_round-bound

-- For records whose ids differ: after the scheduling no resource runs more tasks than its limit,
-- unless it ran more before, and then it runs no more than before.
pub schedule-resource_limit :
    (env : Env) (r : Request) (tasks : List Task) (q : String)
    → Distinct tasks
    → count (runs_on q) (schedule env r tasks).tasks
      ≤ max (resource_limit r q) (count (runs_on q) tasks)
schedule-resource_limit env r tasks q =
    schedule-bound env r tasks (runs_on q) (resource_limit r q) (λ t n. rw n refl) below
  where
    below :
        (t : Task) (s : Round)
        → has_room r s t ≡ true
        → Tally s
        → runs_on q (claim_task env r t) ≡ true
        → count (runs_on q) s.tasks < resource_limit r q
    below t s h y e =
        let same_resource = (eq_iff (resource_of t) q).0 (rw (sym (claimed_on env r q t)) e) in
        subst (λ x. count (runs_on x) s.tasks < resource_limit r x) same_resource
          (room_on r t s h y)

-- For records whose ids differ: after the scheduling no conversation runs more tasks than
-- `per_channel`, unless it ran more before, and then it runs no more than before.
pub schedule-per_channel :
    (env : Env) (r : Request) (tasks : List Task) (c : String)
    → Distinct tasks
    → nonempty c ≡ true
    → count (runs_in c) (schedule env r tasks).tasks ≤ max r.per_channel (count (runs_in c) tasks)
schedule-per_channel env r tasks c d n =
    schedule-bound env r tasks (runs_in c) r.per_channel (λ t n. rw n refl) below d
  where
    below :
        (t : Task) (s : Round)
        → has_room r s t ≡ true
        → Tally s
        → runs_in c (claim_task env r t) ≡ true
        → count (runs_in c) s.tasks < r.per_channel
    below t s h y e =
        let same_conversation =
          (eq_iff t.conversation_id c).0 (rw (sym (claimed_in env r c t)) e) in
        subst (λ x. count (runs_in x) s.tasks < r.per_channel) same_conversation
          (room_in r t s h y (rw same_conversation n))

-- For records whose ids differ: after the scheduling at most one task runs under a concurrency key
-- that excludes others, unless more ran before, and then no more than before.
pub schedule-mutex_scope :
    (env : Env) (r : Request) (tasks : List Task) (k : String)
    → Distinct tasks
    → mutex_scope k ≡ true
    → count (runs_under k) (schedule env r tasks).tasks ≤ max 1 (count (runs_under k) tasks)
schedule-mutex_scope env r tasks k d m =
    schedule-bound env r tasks (runs_under k) 1 (λ t n. rw n refl) below d
  where
    below :
        (t : Task) (s : Round)
        → has_room r s t ≡ true
        → Tally s
        → runs_under k (claim_task env r t) ≡ true
        → count (runs_under k) s.tasks < 1
    below t s h y e =
        let same_key = (eq_iff t.concurrency_key k).0 (rw (sym (claimed_under env r k t)) e) in
        subst (λ x. count (runs_under x) s.tasks < 1) same_key
          (omega (arith, room_under r t s h y (rw same_key m)))
