-- ===== src/Resources/Held.antt =====
-- A full gate that lets no foreground call in (resource_gate.py).
use chatbot_win.Prelude.{ℕ, zero, suc, ◌+◌, ◌-◌, ◌≤◌, ◌≡◌, refl, ap, arith}
use chatbot_win.Resources.Slots.{effective_llm_max_parallel}
use chatbot_win.Resources.Split.{interactive_share, conversation_parallelism}
use chatbot_win.Resources.Gate.{
  limits_of, Limits, Gate, open_gate, Step, enter_interactive, enter_background, start_interactive,
  start_background, time_out_interactive, time_out_background, leave_interactive, leave_background,
  Reach, here, next,
}

-- `n` background callers take a slot of the total.
abbrev pub queue_background : ℕ → Gate
queue_background n = record open_gate { waiting_background = n }

abbrev pub filled : ℕ → ℕ → Gate
filled n m = record (queue_background n) { running_background = m }

filled-ext : (n m k j : ℕ) → n ≡ k → m ≡ j → filled n m ≡ filled k j
filled-ext n m k j e f = rw (e, f) refl

queue_background-Reach : (l : Limits) (n : ℕ) → n ≤ l.total → Reach l (queue_background n)
queue_background-Reach l zero h = here
queue_background-Reach l (suc n) h =
    next (queue_background-Reach l n (omega arith))
      (enter_background (omega arith) (filled-ext (suc n) 0 (n + 1) 0 (omega arith) refl))

filled-Reach :
    (l : Limits) (m n : ℕ) → n + m ≤ l.total → m ≤ l.background_max → Reach l (filled n m)
filled-Reach l zero n h b = queue_background-Reach l n (omega arith)
filled-Reach l (suc m) n h b = next (filled-Reach l m (n + 1) (omega arith) (omega arith)) (
    start_background (omega arith) (omega arith)
      (filled-ext n (suc m) (n + 1 - 1) (m + 1) (omega arith) (omega arith)))

filled-Step :
    (l : Limits) (n m : ℕ) (h : Gate)
    → n + m ≡ l.total
    → Step l (filled n m) h
    → h.waiting_interactive ≡ 0
filled-Step l n m h f (enter_interactive a e) = absurd (omega arith)
filled-Step l n m h f (enter_background a e) = ap (λ g. g.waiting_interactive) e
filled-Step l n m h f (start_interactive a b e) = absurd (omega arith)
filled-Step l n m h f (start_background a b e) = ap (λ g. g.waiting_interactive) e
filled-Step l n m h f (time_out_interactive a e) = absurd (omega arith)
filled-Step l n m h f (time_out_background a e) = ap (λ g. g.waiting_interactive) e
filled-Step l n m h f (leave_interactive a e) = absurd (omega arith)
filled-Step l n m h f (leave_background a e) = ap (λ g. g.waiting_interactive) e

fills :
    (l : Limits)
    → l.background_max ≤ l.total
    → Reach l (filled (l.total - l.background_max) l.background_max)
      × ((h : Gate)
          → Step l (filled (l.total - l.background_max) l.background_max) h
          → h.waiting_interactive ≡ 0)
fills l b = (
  filled-Reach l l.background_max (l.total - l.background_max) (omega arith) (omega arith),
  λ h. filled-Step l (l.total - l.background_max) l.background_max h (omega arith),
)

background_max-le :
    (scaled : ℕ → ℕ) (budget : ℕ)
    → 1 ≤ budget
    → (limits_of scaled budget).background_max ≤ (limits_of scaled budget).total
unfolding limits_of effective_llm_max_parallel conversation_parallelism interactive_share
background_max-le scaled budget h = ground arith

-- For every budget of at least one call and every ratio a state is reached in which the background pool
-- is full, background callers that await it hold every other slot of the total, no foreground call runs,
-- and no step lets a foreground caller in.
pub limits_of-blocks :
    (scaled : ℕ → ℕ) (budget : ℕ)
    → 1 ≤ budget
    → (g : Gate) × Reach (limits_of scaled budget) g
      × (g.running_interactive ≡ 0)
      × (g.running_background ≡ (limits_of scaled budget).background_max)
      × ((h : Gate) → Step (limits_of scaled budget) g h → h.waiting_interactive ≡ 0)
limits_of-blocks scaled budget h =
    let l = limits_of scaled budget in
    let f = fills l (background_max-le scaled budget h) in
    (filled (l.total - l.background_max) l.background_max, f.0, refl, refl, f.1)
