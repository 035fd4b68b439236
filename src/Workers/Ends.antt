-- ===== src/Workers/Ends.antt =====
-- The loop returns, in a state that its rounds lead to (agent/worker_queue.py).
use chatbot_win.Prelude.{ℕ, true, some, List, [], ◌∷◌, ◌≡◌, refl, inl, inr, any, arith, Bool-cases}
use chatbot_win.Workers.Queue.{
  Queue, Write, Round, write_each, round, is_idle, fail_running_tasks, run_until_idle,
}

-- What holds of the state between the rounds, and what follows of it at the end.
pub record Kept (max_parallel : ℕ) (During : Queue → Type 0) (After : Queue → Type 0) : Type 0 where
  pub written : (ws : List Write) (s : Queue) → During s → During (write_each ws s)
  pub rounded : (r : Round) (s : Queue) → During s → During (round max_parallel r s)
  pub idle : (s : Queue) → During s → is_idle s ≡ true → After s
  pub failed : (s : Queue) → During s → After (fail_running_tasks s)

pub run_until_idle-returns :
    (max_parallel : ℕ) (During : Queue → Type 0) (After : Queue → Type 0)
    → Kept max_parallel During After
    → (rounds : List Round) (s : Queue) → During s
    → any (λ r. r.late) rounds ≡ true
    → (t : Queue) × (run_until_idle max_parallel rounds s ≡ some t) × After t
unfolding run_until_idle round
run_until_idle-returns max_parallel During After kept [] s d h = absurd (ground (arith, h))
run_until_idle-returns max_parallel During After kept (r ∷ rounds) s d h =
    let t = write_each r.earlier s in
    let b = kept.written r.earlier s d in
    elim (Bool-cases (is_idle t)) [
      | inl e ↦ rw e (t, refl, kept.idle t b e)
      | inr e ↦ elim (Bool-cases r.late) [
        | inl f ↦ rw (e, f) (fail_running_tasks t, refl, kept.failed t b)
        | inr f ↦
            rw (e, f)
              (run_until_idle-returns max_parallel During After kept rounds (round max_parallel r t)
                (kept.rounded r t b) (rw f at h))
      ]
    ]
