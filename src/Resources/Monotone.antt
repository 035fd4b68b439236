-- ===== src/Resources/Monotone.antt =====
-- The recommendation against the measured load (resource_governor.py).
use chatbot_win.Prelude.{ℕ, String, ◌≤◌, min, max, arith}
use chatbot_win.Resources.Bounds.{base_by_cores-range}
use chatbot_win.Resources.Recommend.{
  LocalResourceSnapshot, base_by_cores, base_by_load, base_by_memory, base_media, recommend,
}

base_by_load_mono :
    (load more mb physical base : ℕ)
    → load ≤ more
    → base ≤ 6
    → 1 ≤ base
    → base_by_load more mb physical base ≤ base_by_load load mb physical base
unfolding base_by_load
base_by_load_mono load more mb physical base a b c = ground arith

base_by_memory_mono :
    (mb base more : ℕ) → base ≤ more → base_by_memory mb base ≤ base_by_memory mb more
unfolding base_by_memory
base_by_memory_mono mb base more a = ground arith

base_media_mono :
    (s : LocalResourceSnapshot) (more : ℕ)
    → s.cpu_percent ≤ more
    → base_media (record s { cpu_percent = more }) ≤ base_media s
unfolding base_media
base_media_mono s more h =
    let cores = base_by_cores-range (max 1 s.logical_processors) (max 1 s.physical_cores) in
    base_by_memory_mono s.available_memory_mb _ _ (
      base_by_load_mono (min 10000 s.cpu_percent) (min 10000 more) s.available_memory_mb
        (max 1 s.physical_cores)
        (base_by_cores (max 1 s.logical_processors) (max 1 s.physical_cores)) (omega arith) cores.1
        cores.0)

-- On the same machine a higher measured load never gets more media workers, nor more for pictures,
-- speech or files.
pub recommend_mono :
    (lower : String → String) (s : LocalResourceSnapshot) (more : ℕ)
    → s.cpu_percent ≤ more
    → ((recommend lower (record s { cpu_percent = more })).media_cpu
        ≤ (recommend lower s).media_cpu)
      × ((recommend lower (record s { cpu_percent = more })).ocr_cpu_parallel
          ≤ (recommend lower s).ocr_cpu_parallel)
      × ((recommend lower (record s { cpu_percent = more })).asr_cpu_parallel
          ≤ (recommend lower s).asr_cpu_parallel)
      × ((recommend lower (record s { cpu_percent = more })).file_io_parallel
          ≤ (recommend lower s).file_io_parallel)
unfolding recommend
recommend_mono lower s more h =
    let fewer = base_media_mono s more h in (fewer, omega arith, omega arith, ground arith)
