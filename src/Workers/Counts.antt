-- ===== src/Workers/Counts.antt =====
-- The counts that the queue reports (agent/worker_queue.py).
use chatbot_win.Prelude.{
  ℕ, String, ◌&&◌, Option, none, some, List, [], ◌∷◌, ◌+◌, ◌<◌, ◌≤◌, ◌≡◌, inl, inr, refl, arith,
  ltb, nat_eq, length, length-append, put, ◌==◌, Bool-cases, ltb→lt, Dict, ◌∙◌,
}
use chatbot_win.Workers.Queue.{
  QueuedTask, Launch, runs, no_process, no_startup, Queue, is_terminal, status_of, launched,
  start_each, finish, polled, poll_each,
}

-- Of `n` tasks every one is queued, runs, or is counted once; the limits hold.
pub record Account (n max_parallel : ℕ) (s : Queue) : Type 0 where
  pub all : length s.pending + length s.running + s.completed + s.failed ≡ n
  pub running : length s.running ≤ max_parallel
  pub seen : s.max_running_seen ≤ max_parallel
  pub started : s.started + length s.pending ≤ n

-- The same, of a state whose queue or running list has `extra` tasks beside it.
pub record Part (n max_parallel queued polling : ℕ) (s : Queue) : Type 0 where
  pub all : queued + polling + length s.running + s.completed + s.failed ≡ n
  pub running : length s.running + polling ≤ max_parallel
  pub seen : s.max_running_seen ≤ max_parallel
  pub started : s.started + queued ≤ n

pub finish-lists :
    (id : String) (exit_code : ℕ) (s : Queue)
    → ((finish id exit_code s).pending ≡ s.pending) × ((finish id exit_code s).running ≡ s.running)
unfolding finish
finish-lists id exit_code s =
    elim (Bool-cases (nat_eq exit_code 0 && status_of id s == "completed")) [
      | inl e ↦ rw e (refl, refl)
      | inr e ↦ elim (Bool-cases (is_terminal (status_of id s))) [
        | inl f ↦ rw (e, f) (refl, refl)
        | inr f ↦ rw (e, f) (refl, refl)
      ]
    ]

pub pending-poll_each :
    (poll : String → Option ℕ) (ids : List String) (s : Queue)
    → (poll_each poll ids s).pending ≡ s.pending
unfolding poll_each
pending-poll_each poll [] s = refl
pending-poll_each poll (id ∷ ids) s =
    pending-poll_each poll ids (polled id (poll id) s) ∙ same (poll id)
  where
    same : (o : Option ℕ) → (polled id o s).pending ≡ s.pending
    same none = refl
    same (some exit_code) = (finish-lists id exit_code s).0

module _ (n max_parallel : ℕ) where
  launched-Part :
      (task : QueuedTask) (l : Launch) (k : ℕ) (s : Queue)
      → length s.running < max_parallel
      → Part n max_parallel (k + 1) 0 s
      → Part n max_parallel k 0 (launched task l s)
  launched-Part task runs k s h p = record {
    all = rw length-append (omega (arith, p.all));
    running = rw length-append (omega arith);
    seen = rw length-append (omega (arith, p.seen));
    started = omega (arith, p.started);
  }
  launched-Part task no_process k s h p = record {
    all = omega (arith, p.all);
    running = omega (arith, p.running);
    seen = p.seen;
    started = omega (arith, p.started);
  }
  launched-Part task no_startup k s h p = record {
    all = omega (arith, p.all);
    running = omega (arith, p.running);
    seen = p.seen;
    started = omega (arith, p.started);
  }

  pub start_each-Account :
      (launch : QueuedTask → Launch) (tasks : List QueuedTask) (s : Queue)
      → Part n max_parallel (length tasks) 0 s
      → Account n max_parallel (start_each max_parallel launch tasks s)
  unfolding start_each
  start_each-Account launch [] s p = record {
    all = omega (arith, p.all);
    running = omega (arith, p.running);
    seen = p.seen;
    started = p.started;
  }
  start_each-Account launch (task ∷ tasks) s p =
      elim (Bool-cases (ltb (length s.running) max_parallel)) [
        | inr e ↦ rw e (record {
          all = omega (arith, p.all);
          running = omega (arith, p.running);
          seen = p.seen;
          started = p.started;
        })
        | inl e ↦ rw e (
            start_each-Account launch tasks _ (
              launched-Part task (launch task) (length tasks) _ (ltb→lt _ _ e) (record {
                all = omega (arith, p.all);
                running = omega (arith, p.running);
                seen = p.seen;
                started = omega (arith, p.started);
              })))
      ]

  -- One of the polled tasks is counted.
  counted :
      (k j completed failed : ℕ) (statuses : Dict String) (s : Queue)
      → completed + failed ≡ s.completed + s.failed + 1
      → Part n max_parallel k (j + 1) s
      → Part n max_parallel k j
          (record s { statuses = statuses; completed = completed; failed = failed })
  counted k j completed failed statuses s h p = record {
    all = omega (arith, p.all);
    running = omega (arith, p.running);
    seen = p.seen;
    started = p.started;
  }

  finish-Part :
      (id : String) (exit_code k j : ℕ) (s : Queue)
      → Part n max_parallel k (j + 1) s
      → Part n max_parallel k j (finish id exit_code s)
  unfolding finish
  finish-Part id exit_code k j s p =
      elim (Bool-cases (nat_eq exit_code 0 && status_of id s == "completed")) [
        | inl e ↦ rw e (counted k j (s.completed + 1) s.failed s.statuses s (omega arith) p)
        | inr e ↦ elim (Bool-cases (is_terminal (status_of id s))) [
          | inl f ↦ rw (e, f) (counted k j s.completed (s.failed + 1) s.statuses s (omega arith) p)
          | inr f ↦
              rw (e, f)
                (counted k j s.completed (s.failed + 1) (put id "failed" s.statuses) s (omega arith)
                  p)
        ]
      ]

  polled-Part :
      (id : String) (o : Option ℕ) (k j : ℕ) (s : Queue)
      → Part n max_parallel k (j + 1) s
      → Part n max_parallel k j (polled id o s)
  polled-Part id none k j s p = record {
    all = rw length-append (omega (arith, p.all));
    running = rw length-append (omega (arith, p.running));
    seen = p.seen;
    started = p.started;
  }
  polled-Part id (some exit_code) k j s p = finish-Part id exit_code k j s p

  pub poll_each-Part :
      (poll : String → Option ℕ) (ids : List String) (k : ℕ) (s : Queue)
      → Part n max_parallel k (length ids) s
      → Part n max_parallel k 0 (poll_each poll ids s)
  unfolding poll_each
  poll_each-Part poll [] k s p = p
  poll_each-Part poll (id ∷ ids) k s p = poll_each-Part poll ids k _ (
      polled-Part id (poll id) k (length ids) s (record {
        all = omega (arith, p.all);
        running = omega (arith, p.running);
        seen = p.seen;
        started = p.started;
      }))
