-- ===== src/Resources/Tests.antt =====
-- Concrete budgets, and the theorems at them.
use chatbot_win.Prelude.{
  List, All, length, ◌<◌, ℕ, true, false, some, [], ◌∷◌, ◌*◌, ◌/◌, ◌≤◌, ◌≡◌, refl, arith,
}
use chatbot_win.Resources.Slots.{
  acquire_slot, release_slot, Event, acquires, releases, holds, lease_step, lease_run, no_leases,
}
use chatbot_win.Resources.Gate.{Gate, limits_of, Step, Reach}
use chatbot_win.Resources.Held.{limits_of-blocks}
use chatbot_win.Resources.Leases.{locked_at}
use chatbot_win.Resources.Exclusive.{Exclusive, lease_run-Exclusive}

-- 70 percent of the calls
abbrev scaled : ℕ → ℕ
scaled total = total * 7 / 10

limits_of-blocks_example :
    (g : Gate) × Reach (limits_of scaled 10) g
    × (g.running_interactive ≡ 0)
    × (g.running_background ≡ (limits_of scaled 10).background_max)
    × ((h : Gate) → Step (limits_of scaled 10) g h → h.waiting_interactive ≡ 0)
limits_of-blocks_example = limits_of-blocks scaled 10 (omega arith)

-- The first free slot of three is the second.
acquires_second : acquire_slot 3 (true ∷ false ∷ false ∷ []) ≡ some (1, true ∷ true ∷ false ∷ [])
unfolding acquire_slot
acquires_second = refl

-- Two callers come with two limits, the first leaves, and another takes its slot.
abbrev callers : List Event
callers = acquires 1 ∷ acquires 2 ∷ acquires 2 ∷ releases 0 ∷ acquires 2 ∷ []

two_leases : (lease_run callers no_leases).leases ≡ 0 ∷ 1 ∷ []
unfolding lease_run lease_step acquire_slot release_slot
two_leases = refl

lease_run-Exclusive_example :
    Exclusive (lease_run callers no_leases).leases
    × All (λ i. i < 2) (lease_run callers no_leases).leases
    × (length (lease_run callers no_leases).leases ≤ 2)
    × ((i : ℕ)
        → locked_at i (lease_run callers no_leases).slots
          ≡ holds i (lease_run callers no_leases).leases)
lease_run-Exclusive_example =
    lease_run-Exclusive 2 callers
      (omega arith, (omega arith, (omega arith, (tt, (omega arith, tt)))))
