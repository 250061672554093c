-- ===== src/Jobs.antt =====
-- Jobs at the provider: the admission of a `RunJob` in crates/gpumesh-core/src/remote.rs, and the
-- accounting of running containers in crates/gpumesh-runtime/src/docker.rs.
pub mod Admission
pub mod Runtime
pub mod Container
pub mod Execution
pub mod Client
pub mod Exit
pub mod Outputs
pub mod Records
pub mod History
mod Tests
use gpu_share.Protocol.{RunJobRequest}
use gpu_share.Base.{
  show, codes, ltb, any, leb, list_beq, ℕ, zero, suc, String, Bool, true, false, Option, none, some,
  List, [], ◌∷◌, ◌++◌, inl, inr, ◌≡◌, ◌≢◌, refl, ap, sym, arith, if◌then◌else◌, ◌==◌, nat_eq,
  string_eq, ◌+◌, ◌-◌, ◌*◌, ◌≤◌, ◌<◌, min, max, ◌&&◌, ◌||◌, not, ◌&◌, ◌⊎◌, ◌↔◌, length,
}
use gpu_share.Common.{default_image, NodeConfig, ok, err, ◌>>=◌, ◌>>◌, Result}
use gpu_share.Cuda.Gpu.{GpuInfo}

-- `trim_end_matches('/')`.
abbrev drop_slash : ℕ → List ℕ → List ℕ
drop_slash c [] = if c == b'/' then [] else c ∷ []
drop_slash c (d ∷ s) = c ∷ d ∷ s

unfoldable pub trim_end_slashes : List ℕ → List ℕ
trim_end_slashes [] = []
trim_end_slashes (c ∷ s) = drop_slash c (trim_end_slashes s)

unfoldable pub strip_prefix : List ℕ → List ℕ → Option (List ℕ)
strip_prefix [] s = some s
strip_prefix (c ∷ p) [] = none
strip_prefix (c ∷ p) (d ∷ s) = let rest = strip_prefix p s in if c == d then rest else none

-- What may follow an entry of the list: nothing, a tag or a path.
abbrev pub is_continuation : List ℕ → Bool
is_continuation [] = true
is_continuation (c ∷ s) = c == b':' || c == b'/'

abbrev starts_continuation : Option (List ℕ) → Bool
starts_continuation none = false
starts_continuation (some []) = false
starts_continuation (some (c ∷ s)) = c == b':' || c == b'/'

abbrev pub entry_allows : List ℕ → List ℕ → Bool
entry_allows image entry =
    let trimmed = trim_end_slashes entry in
    list_beq image trimmed || starts_continuation (strip_prefix trimmed image)

unfoldable pub image_allowed : String → List String → Bool
image_allowed image allowed = any (λ entry. entry_allows (codes image) (codes entry)) allowed

unfoldable pub needed_vram : Option ℕ → Option ℕ → Option ℕ
needed_vram (some a) (some b) = some (max a b)
needed_vram (some a) none = some a
needed_vram none (some b) = some b
needed_vram none none = none

abbrev pub first_utilization : List GpuInfo → Option ℕ
first_utilization [] = none
first_utilization (g ∷ gs) = g.utilization_gpu

abbrev pub first_free : List GpuInfo → ℕ
first_free [] = 0
first_free (g ∷ gs) = g.vram_free_mb

abbrev pub at_maximum : Option ℕ → Option ℕ → Option (ℕ × ℕ)
at_maximum (some most) (some util) = if leb most util then some (util, most) else none
at_maximum _ _ = none

abbrev pub short_of : Option ℕ → ℕ → Option ℕ
short_of none free = none
short_of (some need) free = if ltb free need then some need else none

abbrev pub job_image : RunJobRequest → String
job_image req = if req.image == "" then default_image else req.image

-- The reason for which a `RunJob` is rejected, if it is. `sharing` is the node's live switch, with
-- the one of its configuration; `cfg` is the configuration as stored; the GPUs are those detected.
unfoldable pub run_job_refusal : Bool → NodeConfig → List GpuInfo → RunJobRequest → Option String
run_job_refusal sharing cfg gpus req =
    if not sharing
    then some "provider is not sharing"
    else if not (image_allowed (job_image req) cfg.allowed_images)
    then some ("container image is not allowed: " & job_image req)
    else elim (at_maximum cfg.max_gpu_utilization (first_utilization gpus)) [
      | some (util, most) ↦ some (
          "GPU utilization " & show util & "% is at or above configured maximum " & show most & "%")
      | none ↦ elim (short_of (needed_vram cfg.max_vram_mb req.gpu_memory_mb) (first_free gpus)) [
        | some need ↦ some (
            "insufficient free VRAM: need "
            & show need
            & " MB, available "
            & show (first_free gpus)
            & " MB")
        | none ↦ none
      ]
    ]
