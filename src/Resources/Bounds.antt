-- ===== src/Resources/Bounds.antt =====
-- The bounds of the recommended budgets (resource_governor.py and resource_scheduler.py).
use chatbot_win.Prelude.{ℕ, String, ◌+◌, ◌≤◌, ◌≡◌, min, max, arith}
use chatbot_win.Resources.Recommend.{
  LocalResourceSnapshot, Recommendation, base_by_cores, base_by_load, base_by_memory, base_media,
  recommend,
}
use chatbot_win.Resources.Split.{Workload, interactive_share, conversation_parallelism}

pub base_by_cores-range :
    (logical physical : ℕ)
    → (1 ≤ base_by_cores logical physical) × (base_by_cores logical physical ≤ 6)
unfolding base_by_cores
base_by_cores-range logical physical = (ground arith, ground arith)

base_by_load-range :
    (load mb physical base : ℕ)
    → 1 ≤ base
    → base ≤ 6
    → (1 ≤ base_by_load load mb physical base) × (base_by_load load mb physical base ≤ 6)
unfolding base_by_load
base_by_load-range load mb physical base a b = (ground arith, ground arith)

base_by_memory-range :
    (mb base : ℕ)
    → 1 ≤ base
    → base ≤ 6
    → (1 ≤ base_by_memory mb base) × (base_by_memory mb base ≤ 6)
unfolding base_by_memory
base_by_memory-range mb base a b = (ground arith, ground arith)

base_media-range : (s : LocalResourceSnapshot) → (1 ≤ base_media s) × (base_media s ≤ 6)
unfolding base_media
base_media-range s =
    let cores = base_by_cores-range (max 1 s.logical_processors) (max 1 s.physical_cores) in
    let load =
      base_by_load-range (min 10000 s.cpu_percent) s.available_memory_mb (max 1 s.physical_cores) _
        cores.0 cores.1 in
    base_by_memory-range s.available_memory_mb _ load.0 load.1

-- The bounds of a recommendation.
pub record InRange (r : Recommendation) : Type 0 where
  pub media_low : 1 ≤ r.media_cpu
  pub media_high : r.media_cpu ≤ 6
  pub ocr_low : 1 ≤ r.ocr_cpu_parallel
  pub ocr_high : r.ocr_cpu_parallel ≤ min 5 r.media_cpu
  pub asr_low : 1 ≤ r.asr_cpu_parallel
  pub asr_high : r.asr_cpu_parallel ≤ min 2 r.media_cpu
  pub file_low : 1 ≤ r.file_io_parallel
  pub file_high : r.file_io_parallel ≤ min 4 r.media_cpu

-- Every parallelism that is recommended is at least one: at most 6 media workers, of which at most 5
-- read pictures and at most 2 speech, and at most 4 files at once, never more than media
-- workers.
pub recommend-InRange :
    (lower : String → String) (s : LocalResourceSnapshot) → InRange (recommend lower s)
unfolding recommend
recommend-InRange lower s =
    let r = base_media-range s in
    record {
      media_low = r.0;
      media_high = r.1;
      ocr_low = omega arith;
      ocr_high = omega (arith, r.0);
      asr_low = omega arith;
      asr_high = ground (arith, r.0);
      file_low = omega arith;
      file_high = ground (arith, r.0, r.1);
    }

-- For a budget of at least two calls the foreground and the background pool share it exactly, and each
-- gets at least one, whatever the ratio; with a budget of one both pools have one.
pub conversation_parallelism-split :
    (scaled : ℕ → ℕ) (work : Workload) (total : ℕ)
    → 1 ≤ total
    → (1 ≤ (conversation_parallelism scaled work total).llm_interactive)
      × (1 ≤ (conversation_parallelism scaled work total).llm_background)
      × ((conversation_parallelism scaled work total).llm_interactive
            + (conversation_parallelism scaled work total).llm_background
          ≡ max 2 total)
unfolding conversation_parallelism interactive_share
conversation_parallelism-split scaled work total h = (ground arith, omega arith, ground arith)
