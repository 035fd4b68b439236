-- ===== src/Tasks/Preview/Agrees.antt =====
-- The preview names the tasks that the next claims take (tasks/manager.py, `_dispatch_preview` against
-- `claim_next`).
use chatbot_win.Prelude.{
  ℕ, String, true, false, not, ◌&&◌, none, some, List, [], ◌∷◌, ◌++◌, ◌+◌, ◌≤◌, ◌≡◌, refl, ap,
  arith, inl, inr, Bool-cases, Option-cases, leb, length, length-append, is_some,
}
use chatbot_win.Tasks.Record.{queued, Task, status_eq, completed_task_ids}
use chatbot_win.Tasks.Scores.{Env, dispatch_priority_score, insert_by, sort_by}
use chatbot_win.Tasks.Dispatch.{
  Request, Round, eligible, has_room, claim_task, claim_round, try_claim, claim_loop, first_round,
  schedule,
}
use chatbot_win.Tasks.Preview.{
  Reason, Preview, not_runnable_reason, sort_out, preview_one, preview_loop, first_preview,
  preview_tasks,
}

abbrev pub claims_of : Env → Request → List Task → List Task
claims_of env r [] = []
claims_of env r (t ∷ ts) = claim_task env r t ∷ claims_of env r ts

claims_of-append :
    (env : Env) (r : Request) (ts us : List Task)
    → claims_of env r (ts ++ us) ≡ claims_of env r ts ++ claims_of env r us
claims_of-append env r [] us = refl
claims_of-append env r (t ∷ ts) us = rw (claims_of-append env r ts us) refl

-- The round and the preview have counted the same and taken the same tasks.
record Same (env : Env) (r : Request) (s : Round) (p : Preview) : Type 0 where
  pub resources : s.resource_active ≡ p.resource_active
  pub conversations : s.conversation_active ≡ p.conversation_active
  pub keys : s.scopes ≡ p.scopes
  pub taken : s.claimed ≡ claims_of env r p.runnable

module _ (env : Env) (r : Request) (ids : List String) (free : r.allowed ≡ []) where
  -- A queued task is held back exactly when the claim's tests fail.
  reason-tests :
      (t : Task) (s : Round) (p : Preview)
      → Same env r s p
      → status_eq t.status queued ≡ true
      → is_some (not_runnable_reason env r ids p t) ≡ not (eligible env r ids t && has_room r s t)
  unfolding not_runnable_reason eligible has_room
  reason-tests t s p c q = rw (free, q, c.resources, c.conversations, c.keys) (ground arith)

  unqueued : (t : Task) → status_eq t.status queued ≡ false → eligible env r ids t ≡ false
  unfolding eligible
  unqueued t q = rw q refl

  claim_round-Same :
      (t : Task) (s : Round) (p : Preview)
      → Same env r s p
      → Same env r (claim_round env r t s) (sort_out t none p)
  unfolding claim_round
  claim_round-Same t s p c = record {
    resources = rw c.resources refl;
    conversations = rw c.conversations refl;
    keys = rw c.keys refl;
    taken = rw (claims_of-append env r p.runnable (t ∷ []), c.taken) refl;
  }

  held-Same :
      (t : Task) (reason : Reason) (s : Round) (p : Preview)
      → Same env r s p
      → Same env r s (sort_out t (some reason) p)
  held-Same t reason s p c = record {
    resources = c.resources;
    conversations = c.conversations;
    keys = c.keys;
    taken = c.taken;
  }

  step-Same :
      (t : Task) (s : Round) (p : Preview)
      → leb r.max_claims (length s.claimed) ≡ false
      → Same env r s p
      → Same env r (try_claim env r ids t s) (preview_one env r ids t p)
  unfolding try_claim preview_one
  step-Same t s p m c = elim (Bool-cases (status_eq t.status queued)) [
    | inr q ↦ rw (m, q, unqueued t q) c
    | inl q ↦ elim (Option-cases (not_runnable_reason env r ids p t)) [
      | inl n ↦
          let go : (eligible env r ids t && has_room r s t) ≡ true =
            let e = ap (λ o. is_some o) n in ground (arith, reason-tests t s p c q) in
          rw (m, q, n, go) (claim_round-Same t s p c)
      | inr (reason, n) ↦
          let go : (eligible env r ids t && has_room r s t) ≡ false =
            let e = ap (λ o. is_some o) n in ground (arith, reason-tests t s p c q) in
          rw (m, q, n, go) (held-Same t reason s p c)
    ]
  ]

  length-try_claim-le :
      (t : Task) (s : Round) → length (try_claim env r ids t s).claimed ≤ length s.claimed + 1
  unfolding try_claim claim_round
  length-try_claim-le t s = elim (Bool-cases (leb r.max_claims (length s.claimed))) [
    | inl e ↦ rw e (omega arith)
    | inr e ↦ elim (Bool-cases (eligible env r ids t && has_room r s t)) [
      | inr g ↦ rw (e, g) (omega arith)
      | inl g ↦ rw (e, g, length-append) (omega arith)
    ]
  ]

  loop-Same :
      (ts : List Task) (s : Round) (p : Preview)
      → length s.claimed + length ts ≤ r.max_claims
      → Same env r s p
      → Same env r (claim_loop env r ids ts s) (preview_loop env r ids ts p)
  unfolding claim_loop preview_loop
  loop-Same [] s p m c = c
  loop-Same (t ∷ ts) s p m c =
      loop-Same ts (try_claim env r ids t s) (preview_one env r ids t p)
        (omega (arith, length-try_claim-le t s)) (step-Same t s p (ground arith) c)

length-insert :
    (score : Task → ℕ) (t : Task) (us : List Task) → length (insert_by score t us) ≡ length us + 1
unfolding insert_by
length-insert score t [] = omega arith
length-insert score t (u ∷ us) = ground (arith, length-insert score t us)

length-sort : (score : Task → ℕ) (ts : List Task) → length (sort_by score ts) ≡ length ts
unfolding sort_by
length-sort score [] = refl
length-sort score (t ∷ ts) =
    omega (arith, length-insert score t (sort_by score ts), length-sort score ts)

first-Same :
    (env : Env) (r : Request) (tasks : List Task)
    → Same env r (first_round tasks) (first_preview tasks)
unfolding first_round first_preview
first-Same env r tasks = record {
  resources = refl;
  conversations = refl;
  keys = refl;
  taken = refl;
}

enough :
    (tasks : List Task) (score : Task → ℕ) (n : ℕ)
    → length tasks ≤ n
    → length (first_round tasks).claimed + length (sort_by score tasks) ≤ n
unfolding first_round
enough tasks score n m = rw (length-sort score tasks) (omega (arith, m))

-- For a call that allows every resource and at least as many claims as there are tasks: what is claimed
-- is what the preview names as runnable, in the same order, each with the claim's patch on it.
pub schedule-preview_tasks :
    (env : Env) (r : Request) (tasks : List Task)
    → r.allowed ≡ []
    → length tasks ≤ r.max_claims
    → (schedule env r tasks).claimed ≡ claims_of env r (preview_tasks env r tasks).runnable
unfolding schedule preview_tasks
schedule-preview_tasks env r tasks free m =
    let ids = completed_task_ids tasks in
    let score = dispatch_priority_score env r.controls ids in
    (loop-Same env r ids free (sort_by score tasks) (first_round tasks) (first_preview tasks)
      (enough tasks score r.max_claims m) (first-Same env r tasks)).taken
