-- ===== src/Resources/Slots.antt =====
-- The limits of a resource and its slot files (resource_gate.py): whether each of `resource.0.lock` and so
-- on is locked.
use chatbot_win.Prelude.{
  ℕ, zero, suc, Bool, true, false, Option, none, some, List, [], ◌∷◌, ◌+◌, min, max, String, mem,
  strip, if◌then◌else◌, nat_eq, ◌||◌,
}

-- `int(raw)` when it can be read: a number below 1 counts as 1, so it is read as a natural number.
abbrev parsed_or : ℕ → Option ℕ → ℕ
parsed_or default none = default
parsed_or default (some parsed) = parsed

-- `_effective_gpu_max_parallel` and `_effective_llm_max_parallel`
unfoldable pub effective_gpu_max_parallel : Option ℕ → ℕ
effective_gpu_max_parallel value = max 1 (min 8 (parsed_or 1 value))

unfoldable pub effective_llm_max_parallel : Option ℕ → ℕ
effective_llm_max_parallel value = max 1 (min 128 (parsed_or 1 value))

-- `_llm_resource_name`; `lower` is `str.lower`.
unfoldable pub llm_resource_name : (String → String) → String → String
llm_resource_name lower workload =
    if mem (lower (strip workload)) (
      "background" ∷ "context_only" ∷ "backfill" ∷ "history" ∷ "analysis" ∷ "file_analysis"
      ∷ "memory" ∷ [])
    then "llm_background"
    else "llm_interactive"

abbrev pub next_slot : Option (ℕ × List Bool) → Option (ℕ × List Bool)
next_slot none = none
next_slot (some (i, slots)) = some (i + 1, true ∷ slots)

-- A round of `_acquire_slot_file` with this `max_parallel`: the first slot below it whose file can be
-- locked. The list has the files that there are; opening the next one creates it.
unfoldable pub acquire_slot : ℕ → List Bool → Option (ℕ × List Bool)
acquire_slot zero slots = none
acquire_slot (suc n) [] = some (0, true ∷ [])
acquire_slot (suc n) (false ∷ slots) = some (0, true ∷ slots)
acquire_slot (suc n) (true ∷ slots) = next_slot (acquire_slot n slots)

-- `_release_slot_file`
unfoldable pub release_slot : ℕ → List Bool → List Bool
release_slot i [] = []
release_slot zero (b ∷ slots) = false ∷ slots
release_slot (suc i) (b ∷ slots) = b ∷ release_slot i slots

-- The slot files of a resource, and the slots whose leases are out, over all processes.
pub record Leasing : Type 0 where
  pub slots : List Bool
  pub leases : List ℕ

-- A caller comes with its `max_parallel` and tries every slot once, or the one that holds a lease is done.
pub data Event : Type 0 where
  acquires : ℕ → Event
  releases : ℕ → Event

abbrev pub holds : ℕ → List ℕ → Bool
holds i [] = false
holds i (j ∷ js) = nat_eq i j || holds i js

abbrev pub without : ℕ → List ℕ → List ℕ
without i [] = []
without i (j ∷ js) = if nat_eq i j then js else j ∷ without i js

abbrev pub with_lease : Leasing → Option (ℕ × List Bool) → Leasing
with_lease p none = p
with_lease p (some (i, slots)) = record { slots = slots; leases = i ∷ p.leases }

-- What the lease's `with` block does to the pool as it is entered and left.
unfoldable pub lease_step : Event → Leasing → Leasing
unfolding acquire_slot release_slot
lease_step (acquires max_parallel) p = with_lease p (acquire_slot max_parallel p.slots)
lease_step (releases i) p =
    if holds i p.leases
    then record { slots = release_slot i p.slots; leases = without i p.leases }
    else p

unfoldable pub lease_run : List Event → Leasing → Leasing
unfolding lease_step
lease_run [] p = p
lease_run (e ∷ es) p = lease_run es (lease_step e p)

abbrev pub no_leases : Leasing
no_leases = record { slots = []; leases = [] }
