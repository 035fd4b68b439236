-- ===== src/Workers/Cared.antt =====
-- No step on a task loses sight of it (agent/worker_queue.py).
use chatbot_win.Prelude.{
  mem-append, ℕ, String, Bool, true, ◌&&◌, ◌||◌, List, ◌∷◌, ◌≡◌, inl, inr, refl, sym, ap, ◌∙◌,
  arith, nat_eq, if◌then◌else◌, any, mem, Dict, get_or, put, get_or-put, ◌==◌, eq_iff, Bool-cases,
}
use chatbot_win.Workers.Queue.{
  QueuedTask, Launch, runs, no_process, no_startup, Queue, is_terminal, status_of, record_status,
  launched, finish, fail_one,
}

-- The task is in one of the lists, or its status is terminal.
abbrev pub cared_for : String → List QueuedTask → List String → Queue → Bool
cared_for id tasks ids s =
    any (λ t. t.task_id == id) tasks || mem id ids || is_terminal (status_of id s)

failed_terminal : is_terminal "failed" ≡ true
unfolding is_terminal
failed_terminal = refl

completed_terminal : is_terminal "completed" ≡ true
unfolding is_terminal
completed_terminal = refl

completed_status : (status : String) → status == "completed" ≡ true → is_terminal status ≡ true
completed_status status e = rw ((eq_iff status "completed").0 e) completed_terminal

module _ (id : String) where
  pub status-put :
      (j status : String) (d : Dict String)
      → get_or id "" (put j status d) ≡ (if j == id then status else get_or id "" d)
  status-put j status d = get_or-put j id "" status d

  -- A task that is marked as failed is cared for.
  pub put_failed :
      (j : String) (d : Dict String) (rest : Bool)
      → (rest || j == id || is_terminal (get_or id "" d)) ≡ true
      → (rest || is_terminal (get_or id "" (put j "failed" d))) ≡ true
  put_failed j d rest h = elim (Bool-cases (j == id)) [
    | inl e ↦ rw (status-put j "failed" d, e, failed_terminal) (ground arith)
    | inr e ↦ rw (status-put j "failed" d, e) (ground (arith, h, e))
  ]

  start_failed :
      (task : QueuedTask) (tasks : List QueuedTask) (s : Queue)
      → cared_for id (task ∷ tasks) s.running s ≡ true
      → (any (λ t. t.task_id == id) tasks
          || mem id s.running
          || is_terminal
              (get_or id "" (put task.task_id "failed" (put task.task_id "assigned" s.statuses))))
        ≡ true
  start_failed task tasks s h = ground (
    arith,
    put_failed task.task_id (put task.task_id "assigned" s.statuses)
        (any (λ t. t.task_id == id) tasks || mem id s.running)
        (rw (status-put task.task_id "assigned" s.statuses) (ground (arith, h))),
  )

  pub launched-cared :
      (task : QueuedTask) (l : Launch) (tasks : List QueuedTask) (s : Queue)
      → cared_for id (task ∷ tasks) s.running s ≡ true
      → cared_for id tasks
          (launched task l (record_status task.task_id "assigned" s)).running
          (launched task l (record_status task.task_id "assigned" s))
        ≡ true
  launched-cared task runs tasks s h =
      rw (mem-append id task.task_id s.running, status-put task.task_id "assigned" s.statuses)
        (ground (arith, h))
  launched-cared task no_process tasks s h = start_failed task tasks s h
  launched-cared task no_startup tasks s h = start_failed task tasks s h

  terminal_stays :
      (j : String) (tasks : List QueuedTask) (ids : List String) (s : Queue)
      → cared_for id tasks (j ∷ ids) s ≡ true
      → is_terminal (status_of j s) ≡ true
      → cared_for id tasks ids s ≡ true
  terminal_stays j tasks ids s h f = elim (Bool-cases (j == id)) [
    | inl e ↦ ground (arith, sym f ∙ ap (λ k. is_terminal (status_of k s)) ((eq_iff j id).0 e))
    | inr e ↦ ground (arith, h, e)
  ]

  pub finish-cared :
      (j : String) (exit_code : ℕ) (tasks : List QueuedTask) (ids : List String) (s : Queue)
      → cared_for id tasks (j ∷ ids) s ≡ true
      → cared_for id tasks ids (finish j exit_code s) ≡ true
  unfolding finish
  finish-cared j exit_code tasks ids s h =
      elim (Bool-cases (nat_eq exit_code 0 && status_of j s == "completed")) [
        | inl e ↦
            rw e (
              terminal_stays j tasks ids s h (completed_status (status_of j s) (ground (arith, e))))
        | inr e ↦ elim (Bool-cases (is_terminal (status_of j s))) [
          | inl f ↦ rw (e, f) (terminal_stays j tasks ids s h f)
          | inr f ↦
              rw (e, f)
                (ground (
                  arith,
                  put_failed j s.statuses (any (λ t. t.task_id == id) tasks || mem id ids)
                      (ground (arith, h)),
                ))
        ]
      ]

  pub fail_one-cared :
      (j : String) (tasks : List QueuedTask) (ids : List String) (s : Queue)
      → cared_for id tasks (j ∷ ids) s ≡ true
      → cared_for id tasks ids (fail_one j s) ≡ true
  unfolding fail_one
  fail_one-cared j tasks ids s h = elim (Bool-cases (is_terminal (status_of j s))) [
    | inl f ↦ rw f (terminal_stays j tasks ids s h f)
    | inr f ↦ rw f (
        ground (
          arith,
          put_failed j s.statuses (any (λ t. t.task_id == id) tasks || mem id ids)
              (ground (arith, h)),
        ))
  ]
