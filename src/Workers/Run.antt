-- ===== src/Workers/Run.antt =====
-- A whole run of the queue (agent/worker_queue.py).
use chatbot_win.Prelude.{
  ℕ, String, true, some, List, [], ◌∷◌, ◌++◌, ◌≡◌, refl, ap, arith, any, length, append_assoc,
  append_nil, ◌==◌,
}
use chatbot_win.Workers.Queue.{
  QueuedTask, Queue, Round, is_terminal, status_of, enqueue, run_until_idle,
}
use chatbot_win.Workers.Counts.{Account}
use chatbot_win.Workers.Reports.{
  Report, write_each-Account, round-Account, idle-Report, fail_running_tasks-Report,
}
use chatbot_win.Workers.Ends.{Kept, run_until_idle-returns}
use chatbot_win.Workers.Settled.{Cared, Cared-Kept}

abbrev pub empty_queue : Queue
empty_queue = record {
  pending = [];
  running = [];
  statuses = [];
  started = 0;
  completed = 0;
  failed = 0;
  max_running_seen = 0;
}

-- The queue after a call of `enqueue` for each task.
abbrev pub enqueue_each : List QueuedTask → Queue → Queue
enqueue_each [] s = s
enqueue_each (task ∷ tasks) s = enqueue_each tasks (enqueue task s)

-- Before a run nothing was started.
record Unstarted (tasks : List QueuedTask) (s : Queue) : Type 0 where
  pub pending : s.pending ≡ tasks
  pub running : s.running ≡ []
  pub started : s.started ≡ 0
  pub completed : s.completed ≡ 0
  pub failed : s.failed ≡ 0
  pub max_running_seen : s.max_running_seen ≡ 0

enqueue_each-Unstarted :
    (before tasks : List QueuedTask) (s : Queue)
    → Unstarted before s
    → Unstarted (before ++ tasks) (enqueue_each tasks s)
unfolding enqueue
enqueue_each-Unstarted before [] s u = rw (append_nil before) u
enqueue_each-Unstarted before (task ∷ tasks) s u = rw (← append_assoc before (task ∷ []) tasks) (
    enqueue_each-Unstarted (before ++ (task ∷ [])) tasks _ (record {
      pending = rw u.pending refl;
      running = u.running;
      started = u.started;
      completed = u.completed;
      failed = u.failed;
      max_running_seen = u.max_running_seen;
    }))

module _ (tasks : List QueuedTask) (max_parallel : ℕ) where
  abbrev During : Queue → Type 0
  During s =
      Account (length tasks) max_parallel s
      × ((id : String) → any (λ t. t.task_id == id) tasks ≡ true → Cared id s)

  abbrev After : Queue → Type 0
  After s =
      Report (length tasks) max_parallel s
      × ((id : String)
          → any (λ t. t.task_id == id) tasks ≡ true
          → is_terminal (status_of id s) ≡ true)

  all_kept : Kept max_parallel During After
  all_kept = record {
    written = λ ws s d. (
      write_each-Account _ _ ws s d.0,
      λ id h. (Cared-Kept id max_parallel).written ws s (d.1 id h),
    );
    rounded = λ r s d.
        (round-Account _ _ r s d.0, λ id h. (Cared-Kept id max_parallel).rounded r s (d.1 id h));
    idle = λ s d e.
        (idle-Report _ _ s d.0 e, λ id h. (Cared-Kept id max_parallel).idle s (d.1 id h) e);
    failed = λ s d. (
      fail_running_tasks-Report _ _ s d.0,
      λ id h. (Cared-Kept id max_parallel).failed s (d.1 id h),
    );
  }

  During-first : (s : Queue) → Unstarted tasks s → During s
  During-first s u = (
    record {
      all = omega (
        arith,
        ap (λ l. length l) u.pending,
        ap (λ l. length l) u.running,
        u.completed,
        u.failed,
      );
      running = omega (arith, ap (λ l. length l) u.running);
      seen = omega (arith, u.max_running_seen);
      started = omega (arith, ap (λ l. length l) u.pending, u.started);
    },
    λ id h. ground (arith, h, ap (λ l. any (λ t. t.task_id == id) l) u.pending),
  )

-- With enough rounds for the deadline to pass, whatever processes fail to start, exit or write: a run on
-- queued tasks returns; then the completed and the failed tasks are together as many as were queued, no
-- more were started than that, never more than `max_parallel` ran at once, and every task is left in a
-- terminal status.
pub run_until_idle-settles :
    (max_parallel : ℕ) (tasks : List QueuedTask) (rounds : List Round)
    → any (λ r. r.late) rounds ≡ true
    → (t : Queue) × (run_until_idle max_parallel rounds (enqueue_each tasks empty_queue) ≡ some t)
      × Report (length tasks) max_parallel t
      × ((id : String)
          → any (λ task. task.task_id == id) tasks ≡ true
          → is_terminal (status_of id t) ≡ true)
run_until_idle-settles max_parallel tasks rounds late =
    let u = enqueue_each-Unstarted [] tasks empty_queue (record {
      pending = refl;
      running = refl;
      started = refl;
      completed = refl;
      failed = refl;
      max_running_seen = refl;
    }) in
    let r =
      run_until_idle-returns max_parallel (During tasks max_parallel) (After tasks max_parallel)
        (all_kept tasks max_parallel) rounds _ (During-first tasks max_parallel _ u) late in
    (r.0, r.1, r.2.0, r.2.1)
