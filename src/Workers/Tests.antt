-- ===== src/Workers/Tests.antt =====
-- A concrete run of the queue, and the theorem at it.
use chatbot_win.Prelude.{
  ℕ, String, true, false, Option, none, some, List, [], ◌∷◌, ◌≡◌, refl, any, get_or, put, ◌==◌,
  if◌then◌else◌,
}
use chatbot_win.Workers.Queue.{
  QueuedTask, runs, no_process, Queue, Write, Round, is_terminal, status_of, enqueue, start_each,
  finish, poll_each, fail_one, fail_running, fail_pending, fail_running_tasks, write_each, round,
  run_until_idle,
}
use chatbot_win.Workers.Reports.{Report}
use chatbot_win.Workers.Run.{empty_queue, enqueue_each, run_until_idle-settles}

abbrev task : String → QueuedTask
task id = record { task_id = id; worker_module = "worker" }

abbrev tasks : List QueuedTask
tasks = task "a" ∷ task "b" ∷ task "c" ∷ []

abbrev write : String → String → Write
write id status = record { task_id = id; status = status }

-- "a" completes, "b" cannot be started, and "c" still runs at the deadline.
abbrev rounds : List Round
rounds =
    record {
      earlier = [];
      late = false;
      launch = λ t. if t.task_id == "b" then no_process else runs;
      later = write "a" "completed" ∷ write "b" "running" ∷ [];
      poll = λ id. if id == "a" then some 0 else none;
    }
    ∷ record {
      earlier = write "c" "running" ∷ [];
      late = true;
      launch = λ t. runs;
      later = [];
      poll = λ id. none;
    }
    ∷ []

abbrev counts : Option Queue → List ℕ
counts none = []
counts (some s) = s.started ∷ s.completed ∷ s.failed ∷ s.max_running_seen ∷ []

three_tasks : counts (run_until_idle 2 rounds (enqueue_each tasks empty_queue)) ≡ 2 ∷ 1 ∷ 2 ∷ 2 ∷ []
unfolding run_until_idle round enqueue start_each finish poll_each fail_one fail_running
    fail_pending fail_running_tasks write_each is_terminal get_or put
three_tasks = refl

run_until_idle-settles_example :
    (t : Queue) × (run_until_idle 2 rounds (enqueue_each tasks empty_queue) ≡ some t)
    × Report 3 2 t
    × ((id : String)
        → any (λ t. t.task_id == id) tasks ≡ true
        → is_terminal (status_of id t) ≡ true)
run_until_idle-settles_example = run_until_idle-settles 2 tasks rounds refl
