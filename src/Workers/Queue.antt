-- ===== src/Workers/Queue.antt =====
-- `LocalWorkerQueue` (agent/worker_queue.py). What the operating system and the worker processes do in a
-- round of the loop is a parameter, `Round`.
use chatbot_win.Prelude.{
  ℕ, String, Bool, ◌&&◌, Option, none, some, List, [], ◌∷◌, ◌++◌, ◌+◌, max, ltb, nat_eq,
  if◌then◌else◌, length, mem, Dict, get_or, put, ◌==◌,
}

-- `_QueuedTask`; a running task is told by its id alone.
pub record QueuedTask : Type 0 where
  pub task_id : String
  pub worker_module : String

-- How the start of a process goes: it runs, it fails before there is a process, or behind that.
pub data Launch : Type 0 where
  runs no_process no_startup : Launch

-- The queue, the statuses of the workspace and the counts of `run_until_idle`.
pub record Queue : Type 0 where
  pub pending : List QueuedTask
  pub running : List String
  pub statuses : Dict String
  pub started : ℕ
  pub completed : ℕ
  pub failed : ℕ
  pub max_running_seen : ℕ

-- A worker's call of `record_status`.
pub record Write : Type 0 where
  pub task_id : String
  pub status : String

-- One round of the loop: what the workers wrote since the last, whether the deadline has passed, how the
-- starts go, what the workers write then, and the exit code that `poll` gives for each process.
pub record Round : Type 0 where
  pub earlier : List Write
  pub late : Bool
  pub launch : QueuedTask → Launch
  pub later : List Write
  pub poll : String → Option ℕ

-- `TERMINAL_STATUSES` (agent/workspace.py)
unfoldable pub is_terminal : String → Bool
is_terminal status = mem status ("completed" ∷ "failed" ∷ "canceled" ∷ "archived" ∷ [])

-- `read_status` of a task; there is one for each task that was queued.
abbrev pub status_of : String → Queue → String
status_of id s = get_or id "" s.statuses

abbrev pub record_status : String → String → Queue → Queue
record_status id status s = record s { statuses = put id status s.statuses }

-- `enqueue`
unfoldable pub enqueue : QueuedTask → Queue → Queue
enqueue task s = record s {
  pending = s.pending ++ (task ∷ []);
  statuses = put task.task_id "queued" s.statuses;
}

abbrev pub launched : QueuedTask → Launch → Queue → Queue
launched task runs s = record s {
  running = s.running ++ (task.task_id ∷ []);
  started = s.started + 1;
  max_running_seen = max s.max_running_seen (length (s.running ++ (task.task_id ∷ [])));
}
launched task no_process s = record s {
  statuses = put task.task_id "failed" s.statuses;
  failed = s.failed + 1;
}
launched task no_startup s = record s {
  statuses = put task.task_id "failed" s.statuses;
  started = s.started + 1;
  failed = s.failed + 1;
}

-- The loop that starts workers while there is room.
unfoldable pub start_each : ℕ → (QueuedTask → Launch) → List QueuedTask → Queue → Queue
start_each max_parallel launch [] s = record s { pending = [] }
start_each max_parallel launch (task ∷ tasks) s =
    let rest =
      start_each max_parallel launch tasks
        (launched task (launch task) (record_status task.task_id "assigned" s)) in
    if ltb (length s.running) max_parallel then rest else record s { pending = task ∷ tasks }

-- What is done when the process of a task has exited.
unfoldable pub finish : String → ℕ → Queue → Queue
finish id exit_code s =
    if nat_eq exit_code 0 && status_of id s == "completed"
    then record s { completed = s.completed + 1 }
    else if is_terminal (status_of id s)
    then record s { failed = s.failed + 1 }
    else record s { statuses = put id "failed" s.statuses; failed = s.failed + 1 }

abbrev pub polled : String → Option ℕ → Queue → Queue
polled id none s = record s { running = s.running ++ (id ∷ []) }
polled id (some exit_code) s = finish id exit_code s

-- The loop over a copy of `running`; `s.running` is what stays of it.
unfoldable pub poll_each : (String → Option ℕ) → List String → Queue → Queue
poll_each poll [] s = s
poll_each poll (id ∷ ids) s = poll_each poll ids (polled id (poll id) s)

unfoldable pub fail_one : String → Queue → Queue
fail_one id s =
    if is_terminal (status_of id s)
    then record s { failed = s.failed + 1 }
    else record s { statuses = put id "failed" s.statuses; failed = s.failed + 1 }

-- The two loops of `_fail_running_tasks`.
unfoldable pub fail_running : List String → Queue → Queue
fail_running [] s = s
fail_running (id ∷ ids) s = fail_running ids (fail_one id s)

unfoldable pub fail_pending : List QueuedTask → Queue → Queue
fail_pending [] s = s
fail_pending (task ∷ tasks) s =
    fail_pending tasks
      (record s { statuses = put task.task_id "failed" s.statuses; failed = s.failed + 1 })

unfoldable pub fail_running_tasks : Queue → Queue
fail_running_tasks s =
    fail_pending s.pending (fail_running s.running (record s { pending = []; running = [] }))

-- A worker writes the status of its own task only.
unfoldable pub write_each : List Write → Queue → Queue
write_each [] s = s
write_each (w ∷ ws) s =
    write_each ws (if mem w.task_id s.running then record_status w.task_id w.status s else s)

abbrev pub is_idle : Queue → Bool
is_idle s = nat_eq (length s.pending + length s.running) 0

-- The body of the loop behind the test of the deadline.
unfoldable pub round : ℕ → Round → Queue → Queue
round max_parallel r s =
    let t = write_each r.later (start_each max_parallel r.launch s.pending s) in
    poll_each r.poll t.running (record t { running = [] })

-- `_run_until_idle_leased`; `none` when the rounds given are over before it returns.
unfoldable pub run_until_idle : ℕ → List Round → Queue → Option Queue
run_until_idle max_parallel [] s = none
run_until_idle max_parallel (r ∷ rounds) s =
    let t = write_each r.earlier s in
    let rest = run_until_idle max_parallel rounds (round max_parallel r t) in
    if is_idle t then some t else if r.late then some (fail_running_tasks t) else rest
