-- ===== src/Tasks/Dispatch/Records.antt =====
-- What `claim_next` (tasks/manager.py) does to each record of the store.
use chatbot_win.Prelude.{
  String, true, some, List, ◌≡◌, refl, sym, subst, ◌⊎◌, inl, inr, find, ◌==◌, eq_iff, Bool-cases,
}
use chatbot_win.Tasks.Record.{Task, has_id, completed_task_ids}
use chatbot_win.Tasks.Scores.{Env}
use chatbot_win.Tasks.Dispatch.{
  Request, Round, eligible, claim_task, claim_round, first_round, schedule,
}
use chatbot_win.Tasks.Dispatch.Counts.{find-replace}
use chatbot_win.Tasks.Dispatch.Pending.{Distinct}
use chatbot_win.Tasks.Dispatch.Tallies.{Tally, claim_task-task_id}
use chatbot_win.Tasks.Dispatch.Rounds.{Allowed, schedule-keeps}
use chatbot_win.Tasks.Dispatch.Claimed.{find-replace_same, claim_round-tasks, claim_task-running}

-- The record that stood under the id stands there still, or with the claim's patch on it.
abbrev pub Fate : Env → Request → List Task → String → Task → Round → Type 0
Fate env r tasks j t s =
    (find (has_id j) s.tasks ≡ some t)
    ⊎ ((eligible env r (completed_task_ids tasks) t ≡ true)
        × (find (has_id j) s.tasks ≡ some (claim_task env r t)))

module _ (env : Env) (r : Request) (tasks : List Task) (j : String) (t : Task) where
  claim_round-Fate :
      (u : Task) (s : Round)
      → Allowed env r (completed_task_ids tasks) u s
      → Tally s
      → Fate env r tasks j t s
      → Fate env r tasks j t (claim_round env r u s)
  claim_round-Fate u s a y f = elim (Bool-cases (u.task_id == j)) [
    | inr e ↦
        rw
          (
            claim_round-tasks,
            find-replace s.tasks j u.task_id (claim_task env r u) (claim_task-task_id env r u) e,
          )
          f
    | inl e ↦
        let same = (eq_iff u.task_id j).0 e in
        let there : find (has_id j) s.tasks ≡ some u = rw (sym same) a.claimable.found in
        let now : find (has_id j) (claim_round env r u s).tasks ≡ some (claim_task env r u) =
          rw (claim_round-tasks, sym same)
            (find-replace_same s.tasks u.task_id u (claim_task env r u) a.claimable.found
              (claim_task-task_id env r u)) in
        elim f [
          | inl g ↦
              let eq : u ≡ t = cc in
              inr (
                subst (λ x. eligible env r (completed_task_ids tasks) x ≡ true) eq a.eligible_then,
                subst
                    (λ x. find (has_id j) (claim_round env r u s).tasks ≡ some (claim_task env r x))
                    eq now,
              )
          | inr (p, g) ↦
              let eq : u ≡ claim_task env r t = cc in
              let runs = claim_task-running env r t in let rests = a.claimable.rests in cc
        ]
  ]

first_round-find :
    (tasks : List Task) (j : String) (t : Task)
    → find (has_id j) tasks ≡ some t
    → find (has_id j) (first_round tasks).tasks ≡ some t
unfolding first_round
first_round-find tasks j t h = h

-- For records whose ids differ: a record is left as it was, or it was one that may be claimed and is
-- left with the claim's patch on it.
pub schedule-Fate :
    (env : Env) (r : Request) (tasks : List Task) (j : String) (t : Task)
    → Distinct tasks
    → find (has_id j) tasks ≡ some t
    → Fate env r tasks j t (schedule env r tasks)
schedule-Fate env r tasks j t d h =
    schedule-keeps env r (completed_task_ids tasks) (Fate env r tasks j t)
      (claim_round-Fate env r tasks j t) tasks refl d (inl (first_round-find tasks j t h))
