-- ===== src/Resources/Recommend.antt =====
-- `_recommend` and `_thermal_risk` (resource_governor.py). `cpu_percent` has two decimals and is counted
-- in hundredths of a percent.
use chatbot_win.Prelude.{
  ℕ, String, not, ◌&&◌, [], ◌∷◌, ◌+◌, ◌-◌, ◌/◌, min, max, leb, ltb, nat_eq, if◌then◌else◌, any,
  contains,
}

pub record LocalResourceSnapshot : Type 0 where
  pub cpu_name : String
  pub physical_cores : ℕ
  pub logical_processors : ℕ
  pub cpu_percent : ℕ
  pub total_memory_mb : ℕ
  pub available_memory_mb : ℕ

pub data Risk : Type 0 where
  low medium high : Risk

pub record Recommendation : Type 0 where
  pub media_cpu : ℕ
  pub ocr_cpu_parallel : ℕ
  pub asr_cpu_parallel : ℕ
  pub file_io_parallel : ℕ
  pub gpu_media : ℕ
  pub thermal_risk : Risk

-- `base_media` before the load is looked at
unfoldable pub base_by_cores : ℕ → ℕ → ℕ
base_by_cores logical physical =
    if leb 24 logical && leb 12 physical
    then max (max 1 (min 6 (physical / 4 + 1))) 4
    else max 1 (min 6 (physical / 4 + 1))

unfoldable pub base_by_load : ℕ → ℕ → ℕ → ℕ → ℕ
base_by_load load available_mb physical base =
    if leb 7500 load
    then max 1 (base - 2)
    else if leb 5500 load
    then max 1 (base - 1)
    else if leb load 2500 && leb 8192 available_mb && leb 12 physical
    then min 6 (base + 1)
    else base

unfoldable pub base_by_memory : ℕ → ℕ → ℕ
base_by_memory available_mb base =
    if not (nat_eq available_mb 0) && ltb available_mb 4096 then min base 2 else base

unfoldable pub base_media : LocalResourceSnapshot → ℕ
base_media s = base_by_memory s.available_memory_mb (
    base_by_load (min 10000 s.cpu_percent) s.available_memory_mb (max 1 s.physical_cores)
      (base_by_cores (max 1 s.logical_processors) (max 1 s.physical_cores)))

-- `_thermal_risk`; `lower` is `str.lower`.
unfoldable pub thermal_risk : (String → String) → LocalResourceSnapshot → ℕ → Risk
thermal_risk lower s media_cpu =
    if leb 7500 s.cpu_percent
    then high
    else if any (λ token. contains token (lower s.cpu_name))
          ("hx" ∷ "hs" ∷ "h " ∷ "mobile" ∷ "laptop" ∷ [])
        && leb 5 media_cpu
    then medium
    else low

unfoldable pub recommend : (String → String) → LocalResourceSnapshot → Recommendation
recommend lower s =
    let media = base_media s in
    record {
      media_cpu = media;
      ocr_cpu_parallel = max 1 (min media 5);
      asr_cpu_parallel = max 1 (min (if leb 8 (max 1 s.physical_cores) then 2 else 1) media);
      file_io_parallel = max 1 (min 4 (if leb media 3 then media else media - 1));
      gpu_media = 1;
      thermal_risk = thermal_risk lower s media;
    }
