-- ===== src/Tasks/Record.antt =====
-- The task records (tasks/manager.py, `TaskRecord`) with the tests that the scheduler makes on them.
-- Of `metadata` the two flags are kept that the scheduler reads. Left out are the fields that nothing
-- modelled reads: the parent task, the topic, `stop_and_wait`, and `priority_score`, which is computed
-- anew for each order. Priorities are not negative.
use chatbot_win.Prelude.{
  ◌≡◌, arith, ℕ, String, Bool, true, false, not, ◌&&◌, ◌||◌, List, [], ◌∷◌, nat_eq, if◌then◌else◌,
  nonempty, strip, starts_with, mem, add, all, get_or, put, Dict, ◌+◌, ◌==◌, keep,
}

pub data Status : Type 0 where
  queued running waiting paused blocked completed failed cancelled : Status

abbrev rank : Status → ℕ
rank queued = 0
rank running = 1
rank waiting = 2
rank paused = 3
rank blocked = 4
rank completed = 5
rank failed = 6
rank cancelled = 7

abbrev pub status_eq : Status → Status → Bool
status_eq a b = nat_eq (rank a) (rank b)

pub status_eq-eq : (a b : Status) → status_eq a b ≡ true → a ≡ b
status_eq-eq a b h = ground arith

-- `status in TERMINAL_STATUSES`; the others are `ACTIVE_STATUSES`.
abbrev pub is_terminal : Status → Bool
is_terminal completed = true
is_terminal failed = true
is_terminal cancelled = true
is_terminal _ = false

pub record Task : Type 0 where
  pub task_id : String
  pub title : String
  pub conversation_id : String
  pub session_id : String
  pub kind : String
  pub status : Status
  pub priority : ℕ
  pub progress : ℕ
  pub phase : String
  pub detail : String
  pub blocker : String
  pub assigned_worker : String
  pub dependencies : List String
  pub concurrency_key : String
  pub resource_class : String
  pub estimated_cost : ℕ
  pub actual_cost : ℕ
  pub external_id : String
  pub created_at : String
  pub updated_at : String
  pub started_at : String
  pub finished_at : String
  pub last_error : String
  pub ephemeral : Bool
  pub local_ui : Bool

abbrev pub has_id : String → Task → Bool
has_id k t = t.task_id == k

-- `_is_ephemeral_ui_task`
unfoldable pub is_ephemeral_ui_task : Task → Bool
is_ephemeral_ui_task t = t.ephemeral || t.local_ui

-- `str(task.get("resource_class") or "cpu_io")`
abbrev pub resource_of : Task → String
resource_of t = if nonempty t.resource_class then t.resource_class else "cpu_io"

-- `_default_resource_limit`
unfoldable pub default_resource_limit : String → ℕ
default_resource_limit resource = if resource == "media_cpu" || resource == "cpu_io" then 2 else 1

-- `_mutex_scope`
unfoldable pub mutex_scope : String → Bool
mutex_scope scope =
    nonempty (strip scope)
    && not (
        starts_with (strip scope) "global"
        || starts_with (strip scope) "diagnostic:"
        || starts_with (strip scope) "ui:"
        || starts_with (strip scope) "audit:"
        || starts_with (strip scope) "history:")

abbrev pub is_running : Task → Bool
is_running t = status_eq t.status running

-- One more under the key.
abbrev pub bump : String → Dict ℕ → Dict ℕ
bump k d = put k (get_or k 0 d + 1) d

-- The loop of `_active_by_resource`, from the counts so far.
unfoldable pub active_by_resource : Dict ℕ → List Task → Dict ℕ
active_by_resource active [] = active
active_by_resource active (t ∷ ts) =
    active_by_resource (if is_running t then bump (resource_of t) active else active) ts

-- The loop of `_active_by_conversation`.
unfoldable pub active_by_conversation : Dict ℕ → List Task → Dict ℕ
active_by_conversation active [] = active
active_by_conversation active (t ∷ ts) =
    active_by_conversation
      (if is_running t && nonempty t.conversation_id then bump t.conversation_id active else active)
      ts

-- The loop of `_active_concurrency_keys`.
unfoldable pub active_concurrency_keys : List String → List Task → List String
active_concurrency_keys scopes [] = scopes
active_concurrency_keys scopes (t ∷ ts) =
    active_concurrency_keys
      (if is_running t && mutex_scope t.concurrency_key
        then add t.concurrency_key scopes
        else scopes)
      ts

-- `_completed_task_ids`
unfoldable pub completed_task_ids : List Task → List String
completed_task_ids [] = []
completed_task_ids (t ∷ ts) =
    if status_eq t.status completed && nonempty t.task_id
    then add t.task_id (completed_task_ids ts)
    else completed_task_ids ts

-- `_dependencies_satisfied`; `_string_list` drops the blank names.
unfoldable pub dependencies_satisfied : Task → List String → Bool
dependencies_satisfied t done =
    all (λ d. mem d done) (keep (λ d. nonempty (strip d)) t.dependencies)

-- `_replace`: the first record with the id, or a new one at the end.
unfoldable pub replace : List Task → String → Task → List Task
replace [] k u = u ∷ []
replace (t ∷ ts) k u = if has_id k t then u ∷ ts else t ∷ replace ts k u
