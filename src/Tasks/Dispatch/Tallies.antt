-- ===== src/Tasks/Dispatch/Tallies.antt =====
-- The counters that the scheduling loop of `claim_next` (tasks/manager.py) keeps.
use chatbot_win.Prelude.{mem-add}
use chatbot_win.Prelude.{
  String, Bool, true, false, some, List, [], ◌+◌, ◌≡◌, refl, inl, inr, arith, ltb, nonempty, mem,
  get_or, count, find, ◌==◌, Bool-cases,
}
use chatbot_win.Tasks.Record.{
  Status, queued, running, Task, has_id, is_running, status_eq, resource_of, mutex_scope,
}
use chatbot_win.Tasks.Scores.{Env}
use chatbot_win.Tasks.Dispatch.{Request, Round, has_room, claim_task, claim_round, first_round}
use chatbot_win.Tasks.Dispatch.Counts.{
  runs_on, runs_in, runs_under, one_if, count-replace, get_or-bump, get_or-active_by_resource,
  get_or-active_by_conversation, apart, mem-active_concurrency_keys,
}

-- The counters of the round are those of its records.
pub record Tally (s : Round) : Type 0 where
  pub resources : (q : String) → get_or q 0 s.resource_active ≡ count (runs_on q) s.tasks
  pub conversations :
      (c : String)
      → nonempty c ≡ true
      → get_or c 0 s.conversation_active ≡ count (runs_in c) s.tasks
  pub keys :
      (k : String) → mutex_scope k ≡ true → mem k s.scopes ≡ ltb 0 (count (runs_under k) s.tasks)

pub first_round-Tally : (tasks : List Task) → Tally (first_round tasks)
unfolding first_round get_or
first_round-Tally tasks = record {
  resources = λ q. omega (arith, get_or-active_by_resource q [] tasks);
  conversations = λ c n. omega (arith, get_or-active_by_conversation c [] tasks n);
  keys = λ k m. mem-active_concurrency_keys k [] tasks m;
}

pub claim_task-task_id :
    (env : Env) (r : Request) (t : Task) → (claim_task env r t).task_id ≡ t.task_id
unfolding claim_task
claim_task-task_id env r t = refl

pub claimed_on :
    (env : Env) (r : Request) (q : String) (t : Task)
    → runs_on q (claim_task env r t) ≡ resource_of t == q
unfolding claim_task
claimed_on env r q t = refl

pub claimed_in :
    (env : Env) (r : Request) (c : String) (t : Task)
    → runs_in c (claim_task env r t) ≡ t.conversation_id == c
unfolding claim_task
claimed_in env r c t = refl

pub claimed_under :
    (env : Env) (r : Request) (k : String) (t : Task)
    → runs_under k (claim_task env r t) ≡ t.concurrency_key == k
unfolding claim_task
claimed_under env r k t = refl

-- A queued task does not run.
pub queued_rests : (t : Task) → status_eq t.status queued ≡ true → is_running t ≡ false
queued_rests t h = rests t.status h
  where
    rests : (a : Status) → status_eq a queued ≡ true → status_eq a running ≡ false
    rests running h = cc
    rests _ h = refl

-- What makes `try_claim` claim.
pub record Claimable (env : Env) (r : Request) (s : Round) (t : Task) : Type 0 where
  pub found : find (has_id t.task_id) s.tasks ≡ some t
  pub rests : is_running t ≡ false
  pub room : has_room r s t ≡ true

-- What a claim adds to a count of the running tasks.
pub count-claim_round :
    (env : Env) (r : Request) (t : Task) (s : Round) (p : Task → Bool)
    → Claimable env r s t
    → p t ≡ false
    → count p (claim_round env r t s).tasks ≡ count p s.tasks + one_if (p (claim_task env r t))
unfolding claim_round
count-claim_round env r t s p c n =
    let e = count-replace p s.tasks t.task_id t (claim_task env r t) c.found in
    let z : one_if (p t) ≡ 0 = rw n refl in omega arith

module _ (env : Env) (r : Request) (t : Task) (s : Round) (y : Tally s) where
  resources_after :
      (q : String)
      → get_or q 0 (claim_round env r t s).resource_active
        ≡ count (runs_on q) s.tasks + one_if (runs_on q (claim_task env r t))
  unfolding claim_round
  resources_after q = rw (claimed_on env r q t, get_or-bump) (omega (arith, y.resources q))

  conversations_after :
      (k : String)
      → nonempty k ≡ true
      → get_or k 0 (claim_round env r t s).conversation_active
        ≡ count (runs_in k) s.tasks + one_if (runs_in k (claim_task env r t))
  unfolding claim_round
  conversations_after k n =
      rw (claimed_in env r k t) (elim (Bool-cases (nonempty t.conversation_id)) [
        | inl e ↦ rw (e, get_or-bump) (omega (arith, y.conversations k n))
        | inr e ↦
            rw (e, apart (λ a. nonempty a) t.conversation_id k e n)
              (omega (arith, y.conversations k n))
      ])

  keys_after :
      (k : String)
      → mutex_scope k ≡ true
      → mem k (claim_round env r t s).scopes
        ≡ ltb 0 (count (runs_under k) s.tasks + one_if (runs_under k (claim_task env r t)))
  unfolding claim_round
  keys_after k m = rw (claimed_under env r k t) (elim (Bool-cases (mutex_scope t.concurrency_key)) [
    | inl e ↦ rw (e, mem-add, y.keys k m) (ground arith)
    | inr e ↦
        rw (e, apart (λ a. mutex_scope a) t.concurrency_key k e m) (ground (arith, y.keys k m))
  ])

  pub claim_round-Tally : Claimable env r s t → Tally (claim_round env r t s)
  claim_round-Tally c = record {
    resources =
        λ q. rw (count-claim_round env r t s (runs_on q) c (rw c.rests refl)) (resources_after q);
    conversations = λ k n.
        rw (count-claim_round env r t s (runs_in k) c (rw c.rests refl)) (conversations_after k n);
    keys =
        λ k m. rw (count-claim_round env r t s (runs_under k) c (rw c.rests refl)) (keys_after k m);
  }
