-- ===== src/Cuda/Remote/Tests.antt =====
-- Runs of the session table for one provider with one GPU, which lets the node "peer" in.
use gpu_share.Security.AllowList.{is_gpu_remote_allowed, allow_gpu_remote, allow}
use gpu_share.Protocol.{malloc}
use gpu_share.Cuda.Backend.Exec.{exec}
use gpu_share.Cuda.Gpu.{GpuInfo}
use gpu_share.Cuda.Backend.{open_session, BackendSession, F32}
use gpu_share.Base.{
  ℕ, true, false, none, some, List, [], ◌∷◌, ◌≡◌, refl, arith, nat_eq, string_eq, length,
}
use gpu_share.Common.{share_limits, default_config}
use gpu_share.Base.Map
use gpu_share.Base.Map.{Map}
use gpu_share.Base.Set
use gpu_share.Cuda.Backend.Invariant.{IsSession}
use gpu_share.Cuda.Remote.Sessions.{start, opened, operated, Reached-IsSession}
use gpu_share.Cuda.Remote.{
  collect_devices, session_cap, open_refusal, handle_cuda_op, handle_gpu_remote_open, Provider,
  CudaSessions,
}
use gpu_share.Security.AllowList

no_sum : List ℕ → List ℕ → List ℕ
no_sum x y = 0 ∷ 0 ∷ 0 ∷ 0 ∷ []

length-no_sum : (x y : List ℕ) → length (no_sum x y) ≡ 4
unfolding no_sum
length-no_sum x y = refl

abbrev toy_floats : F32
toy_floats = record { add = no_sum; length-add = length-no_sum }

abbrev gpu : GpuInfo
gpu = record {
  index = 0;
  name = "RTX";
  uuid = none;
  vram_total_mb = 8192;
  vram_used_mb = 192;
  vram_free_mb = 8000;
  utilization_gpu = some 3;
  utilization_mem = none;
  temperature_c = none;
  power_watts = none;
  driver_version = none;
  cuda_version = none;
  compute_capability = none;
}

abbrev provider : Provider
provider = record {
  config = record (default_config "host") { cuda_remote_sharing = true };
  cuda_remote_sharing = false;
  allowlist = allow_gpu_remote AllowList.default "peer";
  gpus = gpu ∷ [];
}

abbrev one_open : CudaSessions
one_open = (handle_gpu_remote_open provider "peer" "cuda" 2 "s1" []).1

abbrev one_used : CudaSessions
one_used = (handle_cuda_op toy_floats 5 6 "s1" 1 (malloc 16) one_open).1

abbrev opened_session : BackendSession
opened_session = open_session (session_cap provider.config) (collect_devices (gpu ∷ []))

abbrev used_session : BackendSession
used_session = (exec toy_floats 5 (malloc 16) opened_session).1

one_open_works : one_open ≡ ("s1", opened_session) ∷ []
unfolding handle_gpu_remote_open open_refusal default_config share_limits is_gpu_remote_allowed
    allow_gpu_remote Set.contains Set.insert Set.remove Map.insert
one_open_works = refl

one_used_works : Map.get "s1" one_used ≡ some used_session
unfolding handle_gpu_remote_open open_refusal default_config share_limits is_gpu_remote_allowed
    allow_gpu_remote Set.contains Set.insert Set.remove Map.insert handle_cuda_op Map.get
one_used_works = refl

Reached-IsSession_example : IsSession 2 used_session
Reached-IsSession_example =
    Reached-IsSession toy_floats 2 one_used "s1" used_session
      (operated 1 5 6 1 one_open "s1" (malloc 16) (opened 0 2 [] provider "peer" "cuda" "s1" start))
      (omega arith) one_used_works
