-- ===== src/Tasks/Dispatch.antt =====
-- `TaskStatusStore.claim_next` (tasks/manager.py): the scheduling decision, made under one write lock.
mod Counts
pub mod Pending
mod Tallies
mod Rounds
mod Limits
mod Claimed
mod Records
mod Idle
mod Tests
use chatbot_win.Prelude.{
  ℕ, String, Bool, true, false, not, ◌&&◌, ◌||◌, Option, none, some, List, [], ◌∷◌, ◌++◌, ◌+◌, leb,
  ltb, max, nat_eq, if◌then◌else◌, nonempty, mem, add, get_or, Dict, length, keep,
}
use chatbot_win.Tasks.Record.{
  Status, queued, running, Task, status_eq, is_ephemeral_ui_task, resource_of,
  default_resource_limit, mutex_scope, bump, active_by_resource, active_by_conversation,
  active_concurrency_keys, completed_task_ids, dependencies_satisfied, replace,
}
use chatbot_win.Tasks.Scores.{
  Env, Control, dispatch_priority_score, channel_control_blocks, sort_by,
}
use chatbot_win.Tasks.Merge.{Patch, no_patch, merge_task}

-- The arguments of the call, after their normalization.
pub record Request : Type 0 where
  pub worker : String
  pub resource_limits : Dict ℕ
  pub allowed : List String
  pub max_claims : ℕ
  pub per_channel : ℕ
  pub controls : Dict Control

-- The variables of the loop.
pub record Round : Type 0 where
  pub tasks : List Task
  pub claimed : List Task
  pub resource_active : Dict ℕ
  pub conversation_active : Dict ℕ
  pub scopes : List String

unfoldable pub resource_limit : Request → String → ℕ
unfolding default_resource_limit
resource_limit r resource =
    max 1 (get_or resource (default_resource_limit resource) r.resource_limits)

abbrev pub is_empty : List String → Bool
is_empty [] = true
is_empty (x ∷ xs) = false

-- The tests of the loop that read only the task and the arguments.
unfoldable pub eligible : Env → Request → List String → Task → Bool
eligible env r completed_ids t =
    status_eq t.status queued
    && not (channel_control_blocks env r.controls t.conversation_id)
    && (is_empty r.allowed || mem (resource_of t) r.allowed)
    && dependencies_satisfied t completed_ids

-- The tests of the loop that read what is running.
unfoldable pub has_room : Request → Round → Task → Bool
has_room r s t =
    ltb (get_or (resource_of t) 0 s.resource_active) (resource_limit r (resource_of t))
    && (not (nonempty t.conversation_id)
        || ltb (get_or t.conversation_id 0 s.conversation_active) r.per_channel)
    && not (mutex_scope t.concurrency_key && mem t.concurrency_key s.scopes)

-- The patch of a claimed task.
abbrev pub claim_patch : Request → Task → Patch
claim_patch r t = record no_patch {
  status = some running;
  assigned_worker = some r.worker;
  progress = some (max 1 t.progress);
  phase = some (if nonempty t.phase then t.phase else "已由总台领取");
}

unfoldable pub claim_task : Env → Request → Task → Task
unfolding merge_task
claim_task env r t = merge_task env t (claim_patch r t)

unfoldable pub claim_round : Env → Request → Task → Round → Round
unfolding claim_task
claim_round env r t s = record {
  tasks = replace s.tasks t.task_id (claim_task env r t);
  claimed = s.claimed ++ claim_task env r t ∷ [];
  resource_active = bump (resource_of t) s.resource_active;
  conversation_active =
      if nonempty t.conversation_id
      then bump t.conversation_id s.conversation_active
      else s.conversation_active;
  scopes = if mutex_scope t.concurrency_key then add t.concurrency_key s.scopes else s.scopes;
}

unfoldable pub try_claim : Env → Request → List String → Task → Round → Round
try_claim env r completed_ids t s =
    if leb r.max_claims (length s.claimed)
    then s
    else if eligible env r completed_ids t && has_room r s t
    then claim_round env r t s
    else s

-- The loop over the ordered tasks. It breaks once `max_claims` are claimed, after which no round
-- claims.
unfoldable pub claim_loop : Env → Request → List String → List Task → Round → Round
claim_loop env r completed_ids [] s = s
claim_loop env r completed_ids (t ∷ ts) s =
    claim_loop env r completed_ids ts (try_claim env r completed_ids t s)

unfoldable pub first_round : List Task → Round
first_round tasks = record {
  tasks = tasks;
  claimed = [];
  resource_active = active_by_resource [] tasks;
  conversation_active = active_by_conversation [] tasks;
  scopes = active_concurrency_keys [] tasks;
}

-- From the repaired tasks on.
unfoldable pub schedule : Env → Request → List Task → Round
schedule env r tasks =
    let completed_ids = completed_task_ids tasks in
    claim_loop env r completed_ids
      (sort_by (dispatch_priority_score env r.controls completed_ids) tasks) (first_round tasks)

-- `mutate` of `claim_next`; `repair` is `_repair_stale_external_tasks`.
unfoldable pub claim_next : Env → Request → (List Task → List Task) → List Task → Round
claim_next env r repair tasks =
    schedule env r (repair (keep (λ t. not (is_ephemeral_ui_task t)) tasks))
