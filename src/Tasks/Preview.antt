-- ===== src/Tasks/Preview.antt =====
-- `_dispatch_preview` and `_not_runnable_reason` (tasks/manager.py): what the next claims would take.
-- A projection is the task with the reason that holds it back; the fields that the code copies out of
-- the task are read off it. The lists are those before the cut at `limit`.
mod Agrees
mod Tests
use chatbot_win.Prelude.{
  ℕ, String, Bool, true, false, not, ◌&&◌, ◌||◌, Option, none, some, List, [], ◌∷◌, ◌++◌, ltb,
  if◌then◌else◌, nonempty, strip, mem, add, get_or, Dict, keep, length, take,
}
use chatbot_win.Tasks.Record.{
  queued, Task, status_eq, is_ephemeral_ui_task, resource_of, mutex_scope, bump, active_by_resource,
  active_by_conversation, active_concurrency_keys, completed_task_ids, dependencies_satisfied,
}
use chatbot_win.Tasks.Scores.{
  Env, Control, channel_control_blocks, dispatch_priority_score, sort_by,
}
use chatbot_win.Tasks.Dispatch.{Request, resource_limit}

pub data Reason : Type 0 where
  -- the reason of `_channel_control_block_reason`, which names the mode of the channel
  channel_control : Reason
  waiting_for_dependencies : List String → Reason
  resource_busy : String → Reason
  channel_busy : String → Reason
  concurrency_key_busy : String → Reason

pub record Held : Type 0 where
  pub task : Task
  pub reason : Reason

-- The variables of the loop.
pub record Preview : Type 0 where
  pub resource_active : Dict ℕ
  pub conversation_active : Dict ℕ
  pub scopes : List String
  pub runnable : List Task
  pub blocked : List Held

unfoldable pub not_runnable_reason : Env → Request → List String → Preview → Task → Option Reason
not_runnable_reason env r completed_ids p t =
    if channel_control_blocks env r.controls t.conversation_id
    then some channel_control
    else if not (dependencies_satisfied t completed_ids)
    then some (
        waiting_for_dependencies
          (keep (λ d. not (mem d completed_ids)) (keep (λ d. nonempty (strip d)) t.dependencies)))
    else if not
        (ltb (get_or (resource_of t) 0 p.resource_active) (resource_limit r (resource_of t)))
    then some (resource_busy (resource_of t))
    else if nonempty t.conversation_id
        && not (ltb (get_or t.conversation_id 0 p.conversation_active) r.per_channel)
    then some (channel_busy t.conversation_id)
    else if mutex_scope t.concurrency_key && mem t.concurrency_key p.scopes
    then some (concurrency_key_busy t.concurrency_key)
    else none

abbrev pub sort_out : Task → Option Reason → Preview → Preview
sort_out t (some reason) p = record p {
  blocked = p.blocked ++ record { task = t; reason = reason } ∷ [];
}
sort_out t none p = record {
  resource_active = bump (resource_of t) p.resource_active;
  conversation_active =
      if nonempty t.conversation_id
      then bump t.conversation_id p.conversation_active
      else p.conversation_active;
  scopes = if mutex_scope t.concurrency_key then add t.concurrency_key p.scopes else p.scopes;
  runnable = p.runnable ++ t ∷ [];
  blocked = p.blocked;
}

unfoldable pub preview_one : Env → Request → List String → Task → Preview → Preview
preview_one env r completed_ids t p =
    if status_eq t.status queued
    then sort_out t (not_runnable_reason env r completed_ids p t) p
    else p

unfoldable pub preview_loop : Env → Request → List String → List Task → Preview → Preview
preview_loop env r completed_ids [] p = p
preview_loop env r completed_ids (t ∷ ts) p =
    preview_loop env r completed_ids ts (preview_one env r completed_ids t p)

unfoldable pub first_preview : List Task → Preview
first_preview tasks = record {
  resource_active = active_by_resource [] tasks;
  conversation_active = active_by_conversation [] tasks;
  scopes = active_concurrency_keys [] tasks;
  runnable = [];
  blocked = [];
}

unfoldable pub preview_tasks : Env → Request → List Task → Preview
preview_tasks env r tasks =
    let completed_ids = completed_task_ids tasks in
    preview_loop env r completed_ids
      (sort_by (dispatch_priority_score env r.controls completed_ids) tasks) (first_preview tasks)

unfoldable pub dispatch_preview : Env → Request → List Task → Preview
dispatch_preview env r tasks = preview_tasks env r (keep (λ t. not (is_ephemeral_ui_task t)) tasks)
