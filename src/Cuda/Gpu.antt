-- ===== src/Cuda/Gpu.antt =====
-- `GpuInfo` of crates/gpumesh-gpu/src/lib.rs, as the monitor reports it.
use gpu_share.Base.{
  unwrap_or, show, ℕ, String, Option, none, some, List, [], ◌∷◌, nat_eq, string_eq, ◌&◌,
}

pub record GpuInfo : Type 0 where
  pub index : ℕ
  pub name : String
  pub uuid : Option String
  pub vram_total_mb : ℕ
  pub vram_used_mb : ℕ
  pub vram_free_mb : ℕ
  pub utilization_gpu : Option ℕ
  pub utilization_mem : Option ℕ
  pub temperature_c : Option ℕ
  pub power_watts : Option ℕ
  pub driver_version : Option String
  pub cuda_version : Option String
  pub compute_capability : Option String

-- `gpus.first()`.
abbrev pub first_gpu : List GpuInfo → Option GpuInfo
first_gpu [] = none
first_gpu (g ∷ gs) = some g

-- `GpuInfo::primary_summary`.
unfoldable pub primary_summary : List GpuInfo → Option String
primary_summary [] = none
primary_summary (g ∷ gs) = some (
    g.name
    & " | VRAM "
    & show g.vram_used_mb
    & "/"
    & show g.vram_total_mb
    & " MB | util "
    & show (unwrap_or g.utilization_gpu 0)
    & "%")
