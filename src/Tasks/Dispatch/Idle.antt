-- ===== src/Tasks/Dispatch/Idle.antt =====
-- When `claim_next` (tasks/manager.py) claims nothing.
use chatbot_win.Prelude.{
  ℕ, String, true, false, ◌&&◌, List, [], ◌∷◌, ◌+◌, ◌≤◌, ◌<◌, ◌≡◌, sym, ap, ◌∙◌, inl, inr, arith,
  leb, ltb, All, Bool-cases, length, length-append,
}
use chatbot_win.Tasks.Record.{Task, completed_task_ids}
use chatbot_win.Tasks.Scores.{Env, sort_by, dispatch_priority_score}
use chatbot_win.Tasks.Dispatch.{
  Request, Round, eligible, has_room, claim_round, try_claim, claim_loop, first_round, schedule,
}
use chatbot_win.Tasks.Scores.{insert_by}

All-uninsert :
    (P : Task → Type 0) (score : Task → ℕ) (t : Task) (us : List Task)
    → All P (insert_by score t us)
    → P t × All P us
unfolding insert_by
All-uninsert P score t [] a = a
All-uninsert P score t (u ∷ us) a = elim (Bool-cases (ltb (score t) (score u))) [
  | inl e ↦
      let b : All P (u ∷ insert_by score t us) = rw e at a in
      let c = All-uninsert P score t us b.1 in (c.0, (b.0, c.1))
  | inr e ↦ rw e at a
]

All-unsort :
    (P : Task → Type 0) (score : Task → ℕ) (ts : List Task) → All P (sort_by score ts) → All P ts
unfolding sort_by
All-unsort P score [] a = tt
All-unsort P score (t ∷ ts) a =
    let b = All-uninsert P score t (sort_by score ts) a in (b.0, All-unsort P score ts b.1)

module _ (env : Env) (r : Request) (ids : List String) where
  length-try_claim :
      (t : Task) (s : Round) → length s.claimed ≤ length (try_claim env r ids t s).claimed
  unfolding try_claim claim_round
  length-try_claim t s = elim (Bool-cases (leb r.max_claims (length s.claimed))) [
    | inl e ↦ rw e (omega arith)
    | inr e ↦ elim (Bool-cases (eligible env r ids t && has_room r s t)) [
      | inr g ↦ rw (e, g) (omega arith)
      | inl g ↦ rw (e, g, length-append) (omega arith)
    ]
  ]

  length-claim_loop :
      (ts : List Task) (s : Round) → length s.claimed ≤ length (claim_loop env r ids ts s).claimed
  unfolding claim_loop
  length-claim_loop [] s = omega arith
  length-claim_loop (t ∷ ts) s =
      omega (arith, length-try_claim t s, length-claim_loop ts (try_claim env r ids t s))

  -- A task that passes the tests is claimed while there is room for a claim.
  claims_one :
      (t : Task) (s : Round)
      → length s.claimed < r.max_claims
      → eligible env r ids t && has_room r s t ≡ true
      → length (try_claim env r ids t s).claimed ≡ length s.claimed + 1
  unfolding try_claim claim_round
  claims_one t s m g =
      let below : leb r.max_claims (length s.claimed) ≡ false = ground arith in
      rw (below, g, length-append) (omega arith)

  claims_none :
      (t : Task) (s : Round)
      → eligible env r ids t && has_room r s t ≡ false
      → try_claim env r ids t s ≡ s
  unfolding try_claim
  claims_none t s g = ground (arith, g)

  claim_loop-idle :
      (ts : List Task) (s : Round)
      → length s.claimed < r.max_claims
      → length (claim_loop env r ids ts s).claimed ≡ length s.claimed
      → All (λ t. eligible env r ids t && has_room r s t ≡ false) ts
  unfolding claim_loop
  claim_loop-idle [] s m h = tt
  claim_loop-idle (t ∷ ts) s m h = elim (Bool-cases (eligible env r ids t && has_room r s t)) [
    | inl g ↦
        let grown = claims_one t s m g in
        let more = length-claim_loop ts (try_claim env r ids t s) in absurd (omega arith)
    | inr g ↦ (
      g,
      claim_loop-idle ts s m
          (ap (λ x. length (claim_loop env r ids ts x).claimed) (sym (claims_none t s g)) ∙ h),
    )
  ]

-- When `max_claims` allows a claim and none is made, then every record fails a test: it is not
-- queued, or its channel, its resource, its dependencies or a limit holds it back as things stood.
pub schedule-idle :
    (env : Env) (r : Request) (tasks : List Task)
    → 0 < r.max_claims
    → (schedule env r tasks).claimed ≡ []
    → All
        (λ t.
          eligible env r (completed_task_ids tasks) t && has_room r (first_round tasks) t ≡ false)
        tasks
unfolding schedule first_round
schedule-idle env r tasks m h =
    let ids = completed_task_ids tasks in
    All-unsort (λ t. eligible env r ids t && has_room r (first_round tasks) t ≡ false)
      (dispatch_priority_score env r.controls ids) tasks
      (claim_loop-idle env r ids (sort_by (dispatch_priority_score env r.controls ids) tasks)
        (first_round tasks) m (ap (λ z. length z) h))
