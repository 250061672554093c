-- ===== src/Jobs/Admission.antt =====
-- The tests that `RunJob` in crates/gpumesh-core/src/remote.rs makes of a job.
use mathlib.Core.Path.{subst}
use mathlib.Core.List.{append-nil}
use gpu_share.Protocol.{RunJobRequest}
use gpu_share.Jobs.{
  first_free, first_utilization, job_image, starts_continuation, is_continuation, strip_prefix,
  run_job_refusal, short_of, entry_allows, trim_end_slashes, image_allowed, at_maximum, needed_vram,
}
use gpu_share.Base.{
  ◌∙◌, list_beq_sound, list_beq_refl, list_beq, Bool-cases, ==_refl, codes, ℕ, String, Bool, true,
  Option, none, some, List, [], ◌∷◌, ◌++◌, inl, inr, ◌≡◌, refl, sym, arith, ◌==◌, nat_eq, string_eq,
  ◌≤◌, ◌<◌, ◌||◌, ◌⊎◌, ◌↔◌,
}
use gpu_share.Common.{NodeConfig}
use gpu_share.Cuda.Gpu.{GpuInfo}

strip_prefix-eq-some : (p s rest : List ℕ) → strip_prefix p s ≡ some rest → s ≡ p ++ rest
unfolding strip_prefix
strip_prefix-eq-some [] s rest h = cc
strip_prefix-eq-some (c ∷ p) [] rest h = cc
strip_prefix-eq-some (c ∷ p) (d ∷ s) rest h = elim (Bool-cases (c == d)) [
  | inl y ↦
      let same : c ≡ d = (nat_eq.beq_iff c d).0 y in
      let tail : s ≡ p ++ rest = strip_prefix-eq-some p s rest (rw y at h) in cc (same, tail)
  | inr y ↦ absurd (ground (arith, rw y at h))
]

strip_prefix-append : (p rest : List ℕ) → strip_prefix p (p ++ rest) ≡ some rest
unfolding strip_prefix
strip_prefix-append [] rest = refl
strip_prefix-append (c ∷ p) rest = rw (==_refl c) (strip_prefix-append p rest)

-- An image that an entry covers: the entry's name, alone or followed by a tag or a path.
pub record IsCovered (image : List ℕ) (entry : String) : Type 0 where
  pub rest : List ℕ
  pub spelled : image ≡ trim_end_slashes (codes entry) ++ rest
  pub continued : is_continuation rest ≡ true

entry_allows-IsCovered :
    (image : List ℕ) (entry : String)
    → entry_allows image (codes entry) ≡ true
    → IsCovered image entry
entry_allows-IsCovered image entry h =
    elim (Bool-cases (list_beq image (trim_end_slashes (codes entry)))) [
      | inl y ↦ record {
        rest = [];
        spelled =
            list_beq_sound image (trim_end_slashes (codes entry)) y
            ∙ sym (append-nil (trim_end_slashes (codes entry)));
        continued = refl;
      }
      | inr n ↦
          go (strip_prefix (trim_end_slashes (codes entry)) image) refl (ground (arith, rw n at h))
    ]
  where
    go :
        (o : Option (List ℕ))
        → strip_prefix (trim_end_slashes (codes entry)) image ≡ o
        → starts_continuation o ≡ true
        → IsCovered image entry
    go none e k = absurd (ground arith)
    go (some []) e k = absurd (ground arith)
    go (some (c ∷ s)) e k = record {
      rest = c ∷ s;
      spelled = strip_prefix-eq-some (trim_end_slashes (codes entry)) image (c ∷ s) e;
      continued = k;
    }

IsCovered-entry_allows :
    (image : List ℕ) (entry : String)
    → IsCovered image entry
    → entry_allows image (codes entry) ≡ true
IsCovered-entry_allows image entry v =
    subst (λ (i : List ℕ). entry_allows i (codes entry) ≡ true) (sym v.spelled)
      (go v.rest v.continued)
  where
    p : List ℕ
    p = trim_end_slashes (codes entry)

    go :
        (rest : List ℕ)
        → is_continuation rest ≡ true
        → entry_allows (p ++ rest) (codes entry) ≡ true
    go [] k = rw (append-nil p) (rw (list_beq_refl p) refl)
    go (c ∷ s) k = rw (strip_prefix-append p (c ∷ s)) (ground (arith, k))

-- An entry of the list that covers the image.
abbrev pub Covering : String → List String → Type 0
Covering image [] = ⊥
Covering image (entry ∷ allowed) = IsCovered (codes image) entry ⊎ Covering image allowed

-- An image is allowed exactly if an entry of the list, without the slashes at its end, is the
-- image's name, or is followed in it by a tag or a path.
pub image_allowed_lem :
    (image : String) (allowed : List String)
    → (image_allowed image allowed ≡ true) ↔ Covering image allowed
unfolding image_allowed
image_allowed_lem image [] = ((λ h. absurd (ground arith)), (λ v. absurd v))
image_allowed_lem image (entry ∷ allowed) =
    let (found, allows) = image_allowed_lem image allowed in
    (
      (λ h. elim (Bool-cases (entry_allows (codes image) (codes entry))) [
        | inl y ↦ inl (entry_allows-IsCovered (codes image) entry y)
        | inr n ↦ inr (found (rw n at h))
      ]),
      (λ v. elim v [
        | inl c ↦ rw (IsCovered-entry_allows (codes image) entry c) refl
        | inr w ↦ or_true (entry_allows (codes image) (codes entry)) _ (allows w)
      ]),
    )
  where
    or_true : (a b : Bool) → b ≡ true → (a || b) ≡ true
    or_true a b h = ground arith

-- What has been checked of a job that is not rejected.
pub record IsAdmitted (sharing : Bool) (cfg : NodeConfig) (gpus : List GpuInfo)
    (req : RunJobRequest) : Type 0 where
  pub shared : sharing ≡ true
  pub covered : Covering (job_image req) cfg.allowed_images
  pub not_busy :
      (most util : ℕ)
      → cfg.max_gpu_utilization ≡ some most
      → first_utilization gpus ≡ some util
      → util < most
  pub enough_free : (need : ℕ) → req.gpu_memory_mb ≡ some need → need ≤ first_free gpus
  pub keeps_free : (limit : ℕ) → cfg.max_vram_mb ≡ some limit → limit ≤ first_free gpus

at_maximum-eq-none :
    (a b : Option ℕ) (most util : ℕ)
    → at_maximum a b ≡ none
    → a ≡ some most
    → b ≡ some util
    → util < most
at_maximum-eq-none none b most util h x y = cc
at_maximum-eq-none (some m) none most util h x y = cc
at_maximum-eq-none (some m) (some u) most util h x y = ground arith

short_of-eq-none :
    (need : Option ℕ) (n free : ℕ) → short_of need free ≡ none → need ≡ some n → n ≤ free
short_of-eq-none none n free h x = cc
short_of-eq-none (some m) n free h x = ground arith

needed_vram-covers :
    (a b : Option ℕ) (free n : ℕ)
    → short_of (needed_vram a b) free ≡ none
    → (a ≡ some n) ⊎ (b ≡ some n)
    → n ≤ free
unfolding needed_vram
needed_vram-covers none none free n h (inl e) = cc
needed_vram-covers none none free n h (inr e) = cc
needed_vram-covers (some x) none free n h (inl e) = ground arith
needed_vram-covers (some x) none free n h (inr e) = cc
needed_vram-covers none (some y) free n h (inl e) = cc
needed_vram-covers none (some y) free n h (inr e) = ground arith
needed_vram-covers (some x) (some y) free n h (inl e) = ground arith
needed_vram-covers (some x) (some y) free n h (inr e) = ground arith

-- The tests that a job that is not rejected has passed.
passed :
    (sharing : Bool) (cfg : NodeConfig) (gpus : List GpuInfo) (req : RunJobRequest)
    → run_job_refusal sharing cfg gpus req ≡ none
    → (sharing ≡ true)
      × (image_allowed (job_image req) cfg.allowed_images ≡ true)
      × (at_maximum cfg.max_gpu_utilization (first_utilization gpus) ≡ none)
      × (short_of (needed_vram cfg.max_vram_mb req.gpu_memory_mb) (first_free gpus) ≡ none)
unfolding run_job_refusal
passed sharing cfg gpus req h = ground arith

-- A job that is not rejected comes to a node that shares; its image is covered by the list of
-- allowed images, the first GPU's utilisation, where both it and a maximum are known, is below
-- the maximum, and the GPU has as much free memory as the job asks for and as the configuration
-- names.
pub run_job_refusal-IsAdmitted :
    (sharing : Bool) (cfg : NodeConfig) (gpus : List GpuInfo) (req : RunJobRequest)
    → run_job_refusal sharing cfg gpus req ≡ none
    → IsAdmitted sharing cfg gpus req
run_job_refusal-IsAdmitted sharing cfg gpus req h =
    let (shared, allowed, idle, free) = passed sharing cfg gpus req h in
    record {
      shared = shared;
      covered = (image_allowed_lem (job_image req) cfg.allowed_images).0 allowed;
      not_busy = λ most util a b.
          at_maximum-eq-none cfg.max_gpu_utilization (first_utilization gpus) most util idle a b;
      enough_free = λ need e.
          needed_vram-covers cfg.max_vram_mb req.gpu_memory_mb (first_free gpus) need free (inr e);
      keeps_free = λ limit e.
          needed_vram-covers cfg.max_vram_mb req.gpu_memory_mb (first_free gpus) limit free (inl e);
    }
