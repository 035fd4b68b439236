-- ===== src/Workers/Reports.antt =====
-- The counts behind a round, and behind the return (agent/worker_queue.py).
use chatbot_win.Prelude.{
  ℕ, String, Bool, true, false, List, [], ◌∷◌, ◌+◌, ◌≤◌, ◌≡◌, inl, inr, refl, arith, if◌then◌else◌,
  length, mem, put, Bool-cases, ◌∙◌,
}
use chatbot_win.Workers.Queue.{
  QueuedTask, Queue, Write, Round, is_terminal, status_of, record_status, start_each, fail_running,
  fail_pending, fail_running_tasks, write_each, round, is_idle, fail_one,
}
use chatbot_win.Workers.Counts.{Account, start_each-Account, poll_each-Part, pending-poll_each}

module _ (n max_parallel : ℕ) where
  pub write_each-Account :
      (ws : List Write) (s : Queue)
      → Account n max_parallel s
      → Account n max_parallel (write_each ws s)
  unfolding write_each
  write_each-Account [] s a = a
  write_each-Account (w ∷ ws) s a = write_each-Account ws _ (written (mem w.task_id s.running))
    where
      written :
          (b : Bool) → Account n max_parallel (if b then record_status w.task_id w.status s else s)
      written true = record { all = a.all; running = a.running; seen = a.seen; started = a.started }
      written false = a

  fail_one-counts :
      (id : String) (s : Queue)
      → ((fail_one id s).completed + (fail_one id s).failed ≡ s.completed + s.failed + 1)
        × ((fail_one id s).started ≡ s.started)
        × ((fail_one id s).max_running_seen ≡ s.max_running_seen)
  unfolding fail_one
  fail_one-counts id s = elim (Bool-cases (is_terminal (status_of id s))) [
    | inl e ↦ rw e (omega arith, refl, refl)
    | inr e ↦ rw e (omega arith, refl, refl)
  ]

  fail_running-counts :
      (ids : List String) (s : Queue)
      → ((fail_running ids s).completed + (fail_running ids s).failed
          ≡ s.completed + s.failed + length ids)
        × ((fail_running ids s).started ≡ s.started)
        × ((fail_running ids s).max_running_seen ≡ s.max_running_seen)
  unfolding fail_running
  fail_running-counts [] s = (omega arith, refl, refl)
  fail_running-counts (id ∷ ids) s =
      let o = fail_one-counts id s in
      let r = fail_running-counts ids (fail_one id s) in
      (omega (arith, r.0, o.0), r.1 ∙ o.1, r.2 ∙ o.2)

  fail_pending-counts :
      (tasks : List QueuedTask) (s : Queue)
      → ((fail_pending tasks s).completed + (fail_pending tasks s).failed
          ≡ s.completed + s.failed + length tasks)
        × ((fail_pending tasks s).started ≡ s.started)
        × ((fail_pending tasks s).max_running_seen ≡ s.max_running_seen)
  unfolding fail_pending
  fail_pending-counts [] s = (omega arith, refl, refl)
  fail_pending-counts (task ∷ tasks) s =
      let r =
        fail_pending-counts tasks
          (record s { statuses = put task.task_id "failed" s.statuses; failed = s.failed + 1 }) in
      (omega (arith, r.0), r.1, r.2)

  -- What the caller is told.
  pub record Report (s : Queue) : Type 0 where
    pub all : s.completed + s.failed ≡ n
    pub started : s.started ≤ n
    pub seen : s.max_running_seen ≤ max_parallel

  pub round-Account :
      (r : Round) (s : Queue)
      → Account n max_parallel s
      → Account n max_parallel (round max_parallel r s)
  unfolding round
  round-Account r s a =
      let b = start_each-Account n max_parallel r.launch s.pending s (record {
        all = omega (arith, a.all);
        running = omega (arith, a.running);
        seen = a.seen;
        started = a.started;
      }) in
      let t = write_each r.later (start_each max_parallel r.launch s.pending s) in
      let c = write_each-Account r.later _ b in
      let p =
        poll_each-Part n max_parallel r.poll t.running (length t.pending)
          (record t { running = [] })
          (record {
            all = omega (arith, c.all);
            running = omega (arith, c.running);
            seen = c.seen;
            started = c.started;
          }) in
      let same = pending-poll_each r.poll t.running (record t { running = [] }) in
      record {
        all = rw same (omega (arith, p.all));
        running = omega (arith, p.running);
        seen = p.seen;
        started = rw same p.started;
      }

  pub fail_running_tasks-Report :
      (s : Queue) → Account n max_parallel s → Report (fail_running_tasks s)
  unfolding fail_running_tasks
  fail_running_tasks-Report s a =
      let r = fail_running-counts s.running (record s { pending = []; running = [] }) in
      let q =
        fail_pending-counts s.pending
          (fail_running s.running (record s { pending = []; running = [] })) in
      record {
        all = omega (arith, q.0, r.0, a.all);
        started = omega (arith, q.1, r.1, a.started);
        seen = omega (arith, q.2, r.2, a.seen);
      }

  pub idle-Report : (s : Queue) → Account n max_parallel s → is_idle s ≡ true → Report s
  idle-Report s a e = record {
    all = ground (arith, a.all, e);
    started = omega (arith, a.started);
    seen = a.seen;
  }
