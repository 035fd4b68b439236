-- ===== src/Tasks/Merge.antt =====
-- `_merge_task` (tasks/manager.py): a patch of a record. A key that the patch lacks is `none`; the
-- aliases of the keys are the caller's, and `task_id` and `created_at` cannot be patched.
-- `updated_at` is overwritten at the end in any case. The fields that `Task` leaves out are left out.
use chatbot_win.Prelude.{
  ℕ, String, Bool, false, ◌&&◌, not, Option, none, some, List, min, if◌then◌else◌, nonempty,
}
use chatbot_win.Tasks.Record.{Status, running, Task, status_eq, is_terminal}
use chatbot_win.Tasks.Scores.{Env}

pub record Patch : Type 0 where
  -- none where the key is missing or its text names no status: `_status` then keeps the old one
  pub status : Option Status
  -- whether the key is there with a text that names no status
  pub names_no_status : Bool
  pub priority : Option ℕ
  pub progress : Option ℕ
  pub title : Option String
  pub phase : Option String
  pub detail : Option String
  pub blocker : Option String
  pub assigned_worker : Option String
  -- as `_string_list` reads them
  pub dependencies : Option (List String)
  pub concurrency_key : Option String
  pub resource_class : Option String
  pub estimated_cost : Option ℕ
  pub actual_cost : Option ℕ
  pub external_id : Option String
  pub last_error : Option String
  pub conversation_id : Option String
  pub session_id : Option String
  pub kind : Option String
  pub started_at : Option String
  pub finished_at : Option String
  -- of a new `metadata`, which replaces the old one: whether it says `ephemeral` and `local_ui`
  pub metadata : Option (Bool × Bool)

abbrev pub no_patch : Patch
no_patch = record {
  status = none;
  names_no_status = false;
  priority = none;
  progress = none;
  title = none;
  phase = none;
  detail = none;
  blocker = none;
  assigned_worker = none;
  dependencies = none;
  concurrency_key = none;
  resource_class = none;
  estimated_cost = none;
  actual_cost = none;
  external_id = none;
  last_error = none;
  conversation_id = none;
  session_id = none;
  kind = none;
  started_at = none;
  finished_at = none;
  metadata = none;
}

abbrev pub patched {ℓ} : {A : Type ℓ} → Option A → A → A
patched none a = a
patched (some b) a = b

-- `_percent` of a number that is not negative
abbrev pub percent : ℕ → ℕ
percent n = min 100 n

abbrev pub patched_progress : Option ℕ → ℕ → ℕ
patched_progress none n = n
patched_progress (some m) n = percent m

unfoldable pub apply_patch : Task → Patch → Task
apply_patch t p = record t {
  status = patched p.status t.status;
  priority = patched p.priority t.priority;
  progress = patched_progress p.progress t.progress;
  title = patched p.title t.title;
  phase = patched p.phase t.phase;
  detail = patched p.detail t.detail;
  blocker = patched p.blocker t.blocker;
  assigned_worker = patched p.assigned_worker t.assigned_worker;
  dependencies = patched p.dependencies t.dependencies;
  concurrency_key = patched p.concurrency_key t.concurrency_key;
  resource_class = patched p.resource_class t.resource_class;
  estimated_cost = patched p.estimated_cost t.estimated_cost;
  actual_cost = patched p.actual_cost t.actual_cost;
  external_id = patched p.external_id t.external_id;
  last_error = patched p.last_error t.last_error;
  conversation_id = patched p.conversation_id t.conversation_id;
  session_id = patched p.session_id t.session_id;
  kind = patched p.kind t.kind;
  started_at = patched p.started_at t.started_at;
  finished_at = patched p.finished_at t.finished_at;
  ephemeral = (patched p.metadata (t.ephemeral, t.local_ui)).0;
  local_ui = (patched p.metadata (t.ephemeral, t.local_ui)).1;
}

-- The stamps at the end of `_merge_task`.
unfoldable pub stamp : Env → Task → Task
stamp env t = record t {
  started_at =
      if status_eq t.status running && not (nonempty t.started_at)
      then env.now_iso
      else t.started_at;
  finished_at =
      if is_terminal t.status && not (nonempty t.finished_at) then env.now_iso else t.finished_at;
  updated_at = env.now_iso;
}

unfoldable pub merge_task : Env → Task → Patch → Task
unfolding apply_patch stamp
merge_task env t p = stamp env (apply_patch t p)
