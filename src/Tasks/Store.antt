-- ===== src/Tasks/Store.antt =====
-- The operations of `TaskStatusStore` on its records (tasks/manager.py). Each is one write
-- transaction; `repair` is `_repair_tasks_atomically`, and a patch is one that `_merge_task` reads.
mod Finished
mod Identities
mod Tests
use Prim.Native.String
use Prim.Native.Nat.{Ordering}
use chatbot_win.Prelude.{
  ℕ, String, Bool, true, false, not, ◌&&◌, Option, none, some, List, [], ◌∷◌, ◌++◌, nat_eq, ◌+◌,
  if◌then◌else◌, nonempty, strip, find, take, count, length, ◌==◌, or_else,
}
use chatbot_win.Tasks.Record.{
  Status, queued, running, waiting, paused, blocked, completed, failed, cancelled, Task, has_id,
  is_terminal, status_eq, replace,
}
use chatbot_win.Tasks.Scores.{Env}
use chatbot_win.Tasks.Merge.{Patch, no_patch, merge_task, patched, patched_progress}

-- `a < b` on texts, by code points
abbrev pub text_lt : String → String → Bool
text_lt a b = elim (String.compare a b) [ Ordering.lt ↦ true | _ ↦ false ]

-- `sorted(tasks, key=updated_at, reverse=True)`: stable, the latest first.
unfoldable pub insert_latest : Task → List Task → List Task
insert_latest t [] = t ∷ []
insert_latest t (u ∷ us) =
    if text_lt t.updated_at u.updated_at then u ∷ insert_latest t us else t ∷ u ∷ us

unfoldable pub latest_first : List Task → List Task
latest_first [] = []
latest_first (t ∷ ts) = insert_latest t (latest_first ts)

-- `_bounded_task_records`
unfoldable pub bounded_task_records : List Task → List Task
bounded_task_records tasks = take 500 (latest_first tasks)

abbrev pub Repair : Type 0
Repair = List Task → List Task

abbrev update_found : Env → String → Patch → List Task → Option Task → Option (List Task × Task)
update_found env k p tasks none = none
update_found env k p tasks (some t) =
    some (bounded_task_records (replace tasks k (merge_task env t p)), merge_task env t p)

-- `update`: none where it raises `KeyError`.
unfoldable pub update : Env → Repair → String → Patch → List Task → Option (List Task × Task)
update env repair k p tasks = update_found env k p (repair tasks) (find (has_id k) (repair tasks))

-- The record that `create` makes of the payload under a new id.
unfoldable pub new_task : Env → String → Patch → Task
new_task env k p = record {
  task_id = k;
  title = or_else (strip (patched p.title "operation")) "operation";
  conversation_id = patched p.conversation_id "";
  session_id = or_else (patched p.session_id "") "session_default";
  kind = or_else (patched p.kind "") "operation";
  status = patched p.status queued;
  priority = patched p.priority 50;
  progress = patched_progress p.progress 0;
  phase = patched p.phase "";
  detail = patched p.detail "";
  blocker = patched p.blocker "";
  assigned_worker = patched p.assigned_worker "";
  dependencies = patched p.dependencies [];
  concurrency_key = or_else (patched p.concurrency_key "") "global";
  resource_class = or_else (patched p.resource_class "") "cpu_io";
  estimated_cost = first_cost p.estimated_cost;
  actual_cost = patched p.actual_cost 0;
  external_id = patched p.external_id "";
  created_at = env.now_iso;
  updated_at = env.now_iso;
  started_at = "";
  finished_at = "";
  last_error = "";
  ephemeral = (patched p.metadata (false, false)).0;
  local_ui = (patched p.metadata (false, false)).1;
}
  where
    -- `payload.get("estimated_cost") or payload.get("estimatedCost")`: a cost of 0 reads as absent
    first_cost : Option ℕ → ℕ
    first_cost none = 1
    first_cost (some n) = if nat_eq n 0 then 1 else n

abbrev create_found : Env → String → Patch → List Task → Option Task → List Task × Task
create_found env k p tasks none =
    (bounded_task_records (tasks ++ new_task env k p ∷ []), new_task env k p)
create_found env k p tasks (some t) =
    (bounded_task_records (replace tasks k (merge_task env t p)), merge_task env t p)

-- `create` under the id that `_clean_id` has left of the payload's, or a random one.
unfoldable pub create : Env → Repair → String → Patch → List Task → List Task × Task
create env repair k p tasks = create_found env k p (repair tasks) (find (has_id k) (repair tasks))

pub data Action : Type 0 where
  start pause resume wait block complete fail cancel : Action

-- `action_status`
unfoldable pub action_status : Action → Status
action_status start = running
action_status pause = paused
action_status resume = queued
action_status wait = waiting
action_status block = blocked
action_status complete = completed
action_status fail = failed
action_status cancel = cancelled

-- `{"status": status, **patch}`: a status in the patch wins, also a text that names none.
abbrev pub with_status : Status → Patch → Patch
with_status s p = if p.names_no_status then p else record p { status = some (patched p.status s) }

-- `transition` of an action that is supported
unfoldable pub transition :
    Env → Repair → String → Action → Patch → List Task → Option (List Task × Task)
transition env repair k action p tasks =
    update env repair k (with_status (action_status action) p) tasks

-- Whether the loop of `finish_external` patches the task.
abbrev pub is_active_of : String → Task → Bool
is_active_of external_id t = t.external_id == external_id && not (is_terminal t.status)

unfoldable pub finish_each : Env → String → Patch → List Task → List Task
finish_each env external_id p [] = []
finish_each env external_id p (t ∷ ts) =
    (if is_active_of external_id t then merge_task env t p else t)
    ∷ finish_each env external_id p ts

-- `finish_external`: the records after it.
unfoldable pub finish_external : Env → Repair → String → Patch → List Task → List Task
finish_external env repair external_id p tasks =
    if nonempty (strip external_id)
    then bounded_task_records (finish_each env (strip external_id) p (repair tasks))
    else tasks
