-- ===== src/Workers/Settled.antt =====
-- Every task that was queued ends in a terminal status (agent/worker_queue.py).
use chatbot_win.Prelude.{
  mem-append, ℕ, String, true, ◌||◌, Option, none, some, List, [], ◌∷◌, ◌+◌, ◌≡◌, inl, inr, sym, ap,
  ◌∙◌, arith, ltb, nat_eq, any, length, mem, ◌==◌, eq_iff, Bool-cases,
}
use chatbot_win.Workers.Counts.{finish-lists, pending-poll_each}
use chatbot_win.Workers.Queue.{
  QueuedTask, Launch, Queue, Write, Round, is_terminal, status_of, start_each, polled, poll_each,
  fail_running, fail_pending, fail_running_tasks, write_each, round,
}
use chatbot_win.Workers.Cared.{
  cared_for, put_failed, status-put, launched-cared, finish-cared, fail_one-cared,
}
use chatbot_win.Workers.Ends.{Kept}

module _ (id : String) where
  -- In the lists of the state itself.
  abbrev pub Cared : Queue → Type 0
  Cared s = cared_for id s.pending s.running s ≡ true

  start_each-Cared :
      (max_parallel : ℕ) (launch : QueuedTask → Launch) (tasks : List QueuedTask) (s : Queue)
      → cared_for id tasks s.running s ≡ true
      → Cared (start_each max_parallel launch tasks s)
  unfolding start_each
  start_each-Cared max_parallel launch [] s h = h
  start_each-Cared max_parallel launch (task ∷ tasks) s h =
      elim (Bool-cases (ltb (length s.running) max_parallel)) [
        | inr e ↦ rw e h
        | inl e ↦ rw e (
            start_each-Cared max_parallel launch tasks _
              (launched-cared id task (launch task) tasks s h))
      ]

  polled-cared :
      (j : String) (o : Option ℕ) (tasks : List QueuedTask) (ids : List String) (s : Queue)
      → (cared_for id tasks (j ∷ ids) s || mem id s.running) ≡ true
      → (cared_for id tasks ids (polled j o s) || mem id (polled j o s).running) ≡ true
  polled-cared j none tasks ids s h = rw (mem-append id j s.running) (ground (arith, h))
  polled-cared j (some exit_code) tasks ids s h = elim (Bool-cases (mem id s.running)) [
    | inl e ↦ rw ((finish-lists j exit_code s).1, e) (ground arith)
    | inr e ↦
        rw ((finish-lists j exit_code s).1, e)
          (ground (arith, finish-cared id j exit_code tasks ids s (ground (arith, h, e))))
  ]

  poll_each-cared :
      (poll : String → Option ℕ) (tasks : List QueuedTask) (ids : List String) (s : Queue)
      → (cared_for id tasks ids s || mem id s.running) ≡ true
      → cared_for id tasks (poll_each poll ids s).running (poll_each poll ids s) ≡ true
  unfolding poll_each
  poll_each-cared poll tasks [] s h = ground (arith, h)
  poll_each-cared poll tasks (j ∷ ids) s h =
      poll_each-cared poll tasks ids _ (polled-cared j (poll j) tasks ids s h)

  write_each-Cared : (ws : List Write) (s : Queue) → Cared s → Cared (write_each ws s)
  unfolding write_each
  write_each-Cared [] s h = h
  write_each-Cared (w ∷ ws) s h =
      write_each-Cared ws _ (elim (Bool-cases (mem w.task_id s.running)) [
        | inr e ↦ rw e h
        | inl e ↦
            rw (e, status-put id w.task_id w.status s.statuses)
              (elim (Bool-cases (w.task_id == id)) [
                | inl f ↦ rw f (
                    ground (arith, sym (ap (λ k. mem k s.running) ((eq_iff w.task_id id).0 f)) ∙ e))
                | inr f ↦ rw f h
              ])
      ])

  fail_running-cared :
      (tasks : List QueuedTask) (ids : List String) (s : Queue)
      → cared_for id tasks ids s ≡ true
      → cared_for id tasks [] (fail_running ids s) ≡ true
  unfolding fail_running
  fail_running-cared tasks [] s h = h
  fail_running-cared tasks (j ∷ ids) s h =
      fail_running-cared tasks ids _ (fail_one-cared id j tasks ids s h)

  fail_pending-cared :
      (tasks : List QueuedTask) (s : Queue)
      → cared_for id tasks [] s ≡ true
      → is_terminal (status_of id (fail_pending tasks s)) ≡ true
  unfolding fail_pending
  fail_pending-cared [] s h = ground (arith, h)
  fail_pending-cared (task ∷ tasks) s h = fail_pending-cared tasks _ (
      ground (
        arith,
        put_failed id task.task_id s.statuses (any (λ t. t.task_id == id) tasks)
            (ground (arith, h)),
      ))

  round-Cared :
      (max_parallel : ℕ) (r : Round) (s : Queue) → Cared s → Cared (round max_parallel r s)
  unfolding round
  round-Cared max_parallel r s h =
      let t = write_each r.later (start_each max_parallel r.launch s.pending s) in
      let c =
        write_each-Cared r.later (start_each max_parallel r.launch s.pending s)
          (start_each-Cared max_parallel r.launch s.pending s h) in
      rw (pending-poll_each r.poll t.running (record t { running = [] }))
        (poll_each-cared r.poll t.pending t.running (record t { running = [] }) (ground (arith, c)))

  fail_running_tasks-terminal :
      (s : Queue) → Cared s → is_terminal (status_of id (fail_running_tasks s)) ≡ true
  unfolding fail_running_tasks
  fail_running_tasks-terminal s h =
      fail_pending-cared s.pending _
        (fail_running-cared s.pending s.running (record s { pending = []; running = [] }) h)

  idle-terminal :
      (tasks : List QueuedTask) (ids : List String) (s : Queue)
      → nat_eq (length tasks + length ids) 0 ≡ true
      → cared_for id tasks ids s ≡ true
      → is_terminal (status_of id s) ≡ true
  idle-terminal [] [] s e h = h
  idle-terminal [] (j ∷ ids) s e h = absurd (ground (arith, e))
  idle-terminal (task ∷ tasks) ids s e h = absurd (ground (arith, e))

  -- What is kept between the rounds, and reached at the end.
  pub Cared-Kept :
      (max_parallel : ℕ) → Kept max_parallel Cared (λ s. is_terminal (status_of id s) ≡ true)
  Cared-Kept max_parallel = record {
    written = write_each-Cared;
    rounded = round-Cared max_parallel;
    idle = λ s h e. idle-terminal s.pending s.running s e h;
    failed = fail_running_tasks-terminal;
  }
