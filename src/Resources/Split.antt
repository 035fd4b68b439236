-- ===== src/Resources/Split.antt =====
-- `conversation_parallelism` (resource_scheduler.py): how the model calls are split between foreground
-- and background. `scaled` is Python's `int(total * ratio)`, a product of floats.
use chatbot_win.Prelude.{
  ℕ, String, ◌&&◌, [], ◌∷◌, ◌-◌, min, max, leb, ltb, if◌then◌else◌, mem, strip,
}

pub data Workload : Type 0 where
  interactive background : Workload

-- `_workload`; `lower` is `str.lower`.
unfoldable pub workload : (String → String) → String → Workload
workload lower value =
    if mem (lower (strip value)) ("background" ∷ "context_only" ∷ "backfill" ∷ "history" ∷ [])
    then background
    else interactive

pub record ResourceSchedule : Type 0 where
  pub work : Workload
  pub max_parallel_conversations : ℕ
  pub llm_total : ℕ
  pub llm_interactive : ℕ
  pub llm_background : ℕ

unfoldable pub interactive_share : (ℕ → ℕ) → ℕ → ℕ
interactive_share scaled total =
    let share = max 1 (min total (scaled total)) in
    if ltb 1 total && leb total share then total - 1 else share

abbrev pub parallel_of : Workload → ℕ → ℕ → ℕ
parallel_of interactive foreground rest = foreground
parallel_of background foreground rest = rest

unfoldable pub conversation_parallelism : (ℕ → ℕ) → Workload → ℕ → ResourceSchedule
conversation_parallelism scaled work total =
    let foreground = interactive_share scaled total in
    let rest = max 1 (total - foreground) in
    record {
      work = work;
      max_parallel_conversations = max 1 (parallel_of work foreground rest);
      llm_total = total;
      llm_interactive = foreground;
      llm_background = rest;
    }
