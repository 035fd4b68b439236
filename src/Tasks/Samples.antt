-- ===== src/Tasks/Samples.antt =====
-- Records, a clock and a call for the tests of the task manager.
use chatbot_win.Prelude.{ℕ, String, false, none, List, [], ◌∷◌}
use chatbot_win.Tasks.Record.{Status, queued, running, Task}
use chatbot_win.Tasks.Scores.{Env}
use chatbot_win.Tasks.Dispatch.{Request}

abbrev pub some_task : String → String → Status → ℕ → List String → String → Task
some_task id conversation status priority dependencies key = record {
  task_id = id;
  title = "任务";
  conversation_id = conversation;
  session_id = "";
  kind = "conversation_turn";
  status = status;
  priority = priority;
  progress = 0;
  phase = "";
  detail = "";
  blocker = "";
  assigned_worker = "";
  dependencies = dependencies;
  concurrency_key = key;
  resource_class = "llm";
  estimated_cost = 0;
  actual_cost = 0;
  external_id = "";
  created_at = "";
  updated_at = "";
  started_at = "";
  finished_at = "";
  last_error = "";
  ephemeral = false;
  local_ui = false;
}

-- One runs; of the two that wait in the same conversation one has the higher priority, and the last
-- one depends on a task that has not ended.
abbrev pub records : List Task
records =
    some_task "a" "room-1" running 50 [] "chat:room-1"
    ∷ some_task "b" "room-2" queued 40 [] "chat:room-2"
    ∷ some_task "c" "room-2" queued 60 [] "chat:room-2"
    ∷ some_task "d" "room-3" queued 90 ("a" ∷ []) ""
    ∷ []

abbrev pub clock : Env
clock = record { time = 5; now_iso = "2026-01-01T00:00:00"; epoch = λ _. 0; parse_iso = λ _. none }

abbrev pub call : Request
call = record {
  worker = "w1";
  resource_limits = ("llm", 3) ∷ [];
  allowed = [];
  max_claims = 4;
  per_channel = 1;
  controls = [];
}
