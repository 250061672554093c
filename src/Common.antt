-- ===== src/Common.antt =====
-- crates/gpumesh-common/src/lib.rs: the shared errors, states, limits and configuration.
use gpu_share.Base.{
  ap, ◌&◌, arith, inl, inr, ◌⊎◌, ℕ, String, ◌≡◌, refl, Bool, true, false, Option, none, some, List,
  [], ◌∷◌,
}
use gpu_share.Base.Int.{ℤ, pos}

abbrev pub protocol_major : ℕ
protocol_major = 1

abbrev pub protocol_minor : ℕ
protocol_minor = 4

abbrev pub default_agent_port : ℕ
default_agent_port = 47000

abbrev pub default_image : String
default_image = "nvidia/cuda:12.8.0-runtime-ubuntu22.04"

-- Pairing and invite codes expire after this many seconds.
abbrev pub pairing_ttl_secs : ℤ
pairing_ttl_secs = pos 3600

-- Signed greetings older than this are rejected.
abbrev pub hello_ttl_secs : ℤ
hello_ttl_secs = pos 300

-- Public announcements must be fresher than this.
abbrev pub announce_ttl_secs : ℤ
announce_ttl_secs = pos 180

-- The error of every fallible operation, with its message.
pub data GpuMeshError : Type 0 where
  not_initialized : GpuMeshError
  identity : String → GpuMeshError
  peer_not_found : String → GpuMeshError
  peer_denied : String → GpuMeshError
  not_authorized : String → GpuMeshError
  network : String → GpuMeshError
  runtime : String → GpuMeshError
  gpu : String → GpuMeshError
  storage : String → GpuMeshError
  job : String → GpuMeshError
  protocol : String → GpuMeshError
  io : String → GpuMeshError
  other : String → GpuMeshError

pub data Result {ℓ} (A : Type ℓ) : Type ℓ where
  ok : A → Result A
  err : GpuMeshError → Result A

infixl 5 ◌>>=◌ ◌>>◌
-- The `?` operator: an error ends the computation.
abbrev pub ◌>>=◌ {ℓ κ} :
    {A : Type ℓ} {B : Type κ} (first : Result A) (next : A → Result B) → Result B
err early >>= next = err early
ok value >>= next = next value

-- The same for a step that is taken for its effect alone.
abbrev pub ◌>>◌ {ℓ} : {A : Type ℓ} (first : Result (Unit {0})) (next : Result A) → Result A
first >> next = first >>= λ _. next

-- An early `return Err(e)` under a test.
abbrev pub bail_if : Bool → GpuMeshError → Result (Unit {0})
bail_if true e = err e
bail_if false e = ok tt

-- `ok_or_else`.
abbrev pub ok_or {ℓ} : {A : Type ℓ} → Option A → GpuMeshError → Result A
ok_or none e = err e
ok_or (some a) e = ok a

abbrev pub is_ok {ℓ} : {A : Type ℓ} → Result A → Bool
is_ok (ok a) = true
is_ok (err e) = false

pub Result-cases {ℓ} :
    {A : Type ℓ} (r : Result A) → ((e : GpuMeshError) × (r ≡ err e)) ⊎ ((a : A) × (r ≡ ok a))
Result-cases (ok a) = inr (a, refl)
Result-cases (err e) = inl (e, refl)

pub ok_inj {ℓ} : {A : Type ℓ} {a b : A} → ok a ≡ ok b → a ≡ b
ok_inj h = cc

-- What a sequence of two steps did, if it succeeded.
module _ {ℓ κ} {A : Type ℓ} {B : Type κ} {last : B} where
  pub >>=-eq-ok :
      (first : Result A) (next : A → Result B)
      → (first >>= next) ≡ ok last
      → (value : A) × (first ≡ ok value) × (next value ≡ ok last)
  >>=-eq-ok (err early) next h = cc
  >>=-eq-ok (ok value) next h = (value, refl, h)

-- An operation's new state and its answer, and the sequence of two.
abbrev pub and_then :
    {S A B : Type 0} (first : S × Result A) (next : S → A → S × Result B) → S × Result B
and_then (s, err e) next = (s, err e)
and_then (s, ok a) next = next s a

pub and_then-eq-ok :
    {S A B : Type 0} (first : S × Result A) (next : S → A → S × Result B) (s' : S) (b : B)
    → and_then first next ≡ (s', ok b)
    → (s : S) × (a : A) × (first ≡ (s, ok a)) × (next s a ≡ (s', ok b))
and_then-eq-ok (s, err e) next s' b h = absurd (ground (arith, ap (λ (r : _ × Result _). r.1) h))
and_then-eq-ok (s, ok a) next s' b h = (s, a, refl, h)

-- Where a sequence of two ended with an error.
pub and_then-eq-err :
    {S A B : Type 0} (first : S × Result A) (next : S → A → S × Result B) (s' : S)
    (e : GpuMeshError)
    → and_then first next ≡ (s', err e)
    → (first ≡ (s', err e)) ⊎ ((s : S) × (a : A) × (first ≡ (s, ok a)) × (next s a ≡ (s', err e)))
and_then-eq-err (s, err x) next s' e h =
    inl (ground (arith, ap (λ (r : _ × Result _). r.0) h, ap (λ (r : _ × Result _). r.1) h))
and_then-eq-err (s, ok a) next s' e h = inr (s, a, refl, h)

-- `Display` of the errors and the states.
unfoldable pub display : GpuMeshError → String
display not_initialized = "not initialized: run `gpumesh init` first"
display (identity s) = "identity error: " & s
display (peer_not_found s) = "peer not found: " & s
display (peer_denied s) = "peer denied: " & s
display (not_authorized s) = "not authorized: " & s
display (network s) = "network error: " & s
display (runtime s) = "runtime error: " & s
display (gpu s) = "gpu error: " & s
display (storage s) = "storage error: " & s
display (job s) = "job error: " & s
display (protocol s) = "protocol error: " & s
display (io s) = "io error: " & s
display (other s) = s

pub data PeerStatus : Type 0 where
  idle busy offline unknown : PeerStatus

pub data JobState : Type 0 where
  pending transferring starting running succeeded failed cancelled : JobState

unfoldable pub display_status : PeerStatus → String
display_status idle = "IDLE"
display_status busy = "BUSY"
display_status offline = "OFFLINE"
display_status unknown = "UNKNOWN"

unfoldable pub display_job_state : JobState → String
display_job_state pending = "PENDING"
display_job_state transferring = "TRANSFERRING"
display_job_state starting = "STARTING"
display_job_state running = "RUNNING"
display_job_state succeeded = "SUCCEEDED"
display_job_state failed = "FAILED"
display_job_state cancelled = "CANCELLED"

-- The limits that a provider sets. `max_cpu_cores` is an `f64` that the program only prints, and
-- is kept as the printed text.
pub record ShareLimits : Type 0 where
  pub max_vram_mb : Option ℕ
  pub max_gpu_utilization : Option ℕ
  pub max_concurrent_jobs : ℕ
  pub max_runtime_secs : Option ℕ
  pub max_cpu_cores : Option String
  pub max_ram_mb : Option ℕ
  pub max_disk_mb : Option ℕ

pub record NodeConfig : Type 0 where
  pub node_name : String
  pub listen_port : ℕ
  pub default_image : String
  pub rendezvous_url : Option String
  pub max_vram_mb : Option ℕ
  pub max_gpu_utilization : Option ℕ
  pub max_concurrent_jobs : ℕ
  pub max_runtime_secs : Option ℕ
  pub max_cpu_cores : Option String
  pub max_ram_mb : Option ℕ
  pub max_disk_mb : Option ℕ
  pub sharing_enabled : Bool
  pub public_listing : Bool
  pub region : Option String
  pub default_retries : ℕ
  pub update_url : Option String
  pub allowed_images : List String
  pub docker_harden : Bool
  pub desktop_sharing : Bool
  pub cuda_remote_sharing : Bool
  pub cuda_remote_max_alloc_mb : ℕ

abbrev pub default_allowed_images : List String
default_allowed_images =
    "nvidia/cuda" ∷ "python" ∷ "pytorch" ∷ "tensorflow" ∷ "nvcr.io" ∷ default_image ∷ []

-- `Default`, over the host's name.
unfoldable pub default_config : String → NodeConfig
default_config hostname = record {
  node_name = hostname;
  listen_port = default_agent_port;
  default_image = default_image;
  rendezvous_url = none;
  max_vram_mb = none;
  max_gpu_utilization = none;
  max_concurrent_jobs = 1;
  max_runtime_secs = some 3600;
  max_cpu_cores = some "4";
  max_ram_mb = some 8192;
  max_disk_mb = none;
  sharing_enabled = false;
  public_listing = false;
  region = none;
  default_retries = 0;
  update_url = some "https://raw.githubusercontent.com/gpumesh/gpumesh/main/dist/latest.json";
  allowed_images = default_allowed_images;
  docker_harden = true;
  desktop_sharing = false;
  cuda_remote_sharing = false;
  cuda_remote_max_alloc_mb = 512;
}

-- `ShareLimits::from_config`.
unfoldable pub share_limits : NodeConfig → ShareLimits
share_limits cfg = record {
  max_vram_mb = cfg.max_vram_mb;
  max_gpu_utilization = cfg.max_gpu_utilization;
  max_concurrent_jobs = cfg.max_concurrent_jobs;
  max_runtime_secs = cfg.max_runtime_secs;
  max_cpu_cores = cfg.max_cpu_cores;
  max_ram_mb = cfg.max_ram_mb;
  max_disk_mb = cfg.max_disk_mb;
}
