-- ===== src/Cuda/Remote.antt =====
-- The provider's side of crates/gpumesh-core/src/cuda_remote.rs: the table of device sessions of
-- one connection, and the handlers that open, use and close them. A handler returns the messages
-- that it sends and the new table.
pub mod Sessions
mod Tests
use gpu_share.Cuda.Backend.Exec.{exec}
use gpu_share.Security.AllowList.{is_gpu_remote_allowed, AllowList}
use gpu_share.Protocol.{
  gpu_remote_offer, cuda_result, CudaOpKind, CudaResultMsg, gpu_remote_reject, Message,
  CudaDeviceInfo,
}
use gpu_share.Cuda.Backend.{no_partial, open_session, refused, done, BackendSession, Answer, F32}
use gpu_share.Base.{
  u64_max, is_empty, ◌^◌, show, ◌%◌, ltb, unwrap_or, ℕ, zero, suc, String, Bool, true, false,
  Option, none, some, List, [], ◌∷◌, ◌++◌, inl, inr, ◌≡◌, ◌≢◌, refl, ap, sym, arith, if◌then◌else◌,
  ◌==◌, nat_eq, string_eq, ◌+◌, ◌-◌, ◌*◌, ◌≤◌, ◌<◌, min, max, ◌&&◌, ◌||◌, not, ◌&◌, ◌⊎◌, ◌↔◌,
  length,
}
use gpu_share.Common.{share_limits, NodeConfig, ok, err, ◌>>=◌, ◌>>◌, Result}
use gpu_share.Base.Map
use gpu_share.Base.Map.{Map}
use gpu_share.Cuda.Gpu.{GpuInfo}

abbrev pub cuda_remote_client_ver : ℕ
cuda_remote_client_ver = 2

abbrev pub cuda_remote_api : String
cuda_remote_api = "cuda"

abbrev pub default_max_alloc : ℕ
default_max_alloc = 512 * 1024 * 1024

abbrev pub CudaSessions : Type 0
CudaSessions = Map String BackendSession

-- What a handler reads of the node: its live switch, configuration, allow list, and the GPUs that
-- the monitor detects (none where detection fails).
pub record Provider : Type 0 where
  pub config : NodeConfig
  pub cuda_remote_sharing : Bool
  pub allowlist : AllowList
  pub gpus : List GpuInfo

abbrev device_info : GpuInfo → CudaDeviceInfo
device_info g = record {
  index = g.index;
  name = g.name;
  vram_total_mb = g.vram_total_mb;
  vram_free_mb = g.vram_free_mb;
  compute_capability = g.compute_capability;
}

unfoldable pub collect_devices : List GpuInfo → List CudaDeviceInfo
collect_devices [] = []
collect_devices (g ∷ gs) = device_info g ∷ collect_devices gs

-- `g.utilization_gpu.unwrap_or(0)` of the first GPU, where there is one.
abbrev pub first_util : List GpuInfo → Option ℕ
first_util [] = none
first_util (g ∷ gs) = some (unwrap_or g.utilization_gpu 0)

-- The utilisation and the configured maximum, if the first exceeds the second.
abbrev pub util_exceeds : Option ℕ → Option ℕ → Option (ℕ × ℕ)
util_exceeds none util = none
util_exceeds (some most) none = none
util_exceeds (some most) (some util) = if ltb most util then some (util, most) else none

-- The cap of a session in bytes; the product wraps around as a `u64`.
unfoldable pub session_cap : NodeConfig → ℕ
session_cap cfg =
    min ((max cfg.cuda_remote_max_alloc_mb 1 * 1024 * 1024) % 2 ^ 64) (default_max_alloc * 4)

-- The reason for which an open is rejected, if it is.
unfoldable pub open_refusal : Provider → String → String → ℕ → Option String
open_refusal p peer_id api client_ver =
    if not (p.cuda_remote_sharing || p.config.cuda_remote_sharing)
    then some "CUDA remoting is not enabled (host: gpumesh cuda share)"
    else if not (api == cuda_remote_api)
    then some ("unsupported remoting api '" & api & "' (supports 'cuda'; OpenGL deferred)")
    else if client_ver == 0 || ltb cuda_remote_client_ver client_ver
    then some (
        "unsupported client_ver "
        & show client_ver
        & " (host supports ≤ "
        & show cuda_remote_client_ver
        & ")")
    else if not (is_gpu_remote_allowed p.allowlist peer_id)
    then some
        ("CUDA remoting not allowed — host runs: gpumesh cuda allow <peer> (node " & peer_id & ")")
    else if is_empty p.gpus
    then some "no NVIDIA GPU detected on host (NVML / nvidia-smi)"
    else elim (util_exceeds (share_limits p.config).max_gpu_utilization (first_util p.gpus)) [
      | none ↦ none
      | some (util, most) ↦ some ("host GPU util " & show util & "% exceeds max " & show most & "%")
    ]

-- `session_id` is the fresh UUID, and `peer_id` the connection's authenticated node.
unfoldable pub handle_gpu_remote_open :
    Provider → String → String → ℕ → String → CudaSessions → List Message × CudaSessions
handle_gpu_remote_open p peer_id api client_ver session_id sessions =
    elim (open_refusal p peer_id api client_ver) [
      | some reason ↦ (gpu_remote_reject reason ∷ [], sessions)
      | none ↦ (
        gpu_remote_offer (record {
          session_id = session_id;
          api = cuda_remote_api;
          backend = "host-memory";
          max_alloc_bytes = session_cap p.config;
          devices = collect_devices p.gpus;
          lan_warning =
              "CUDA remoting is LAN-oriented (R3). WAN Runtime remoting is usually too slow.";
        })
            ∷ [],
        Map.insert session_id (open_session (session_cap p.config) (collect_devices p.gpus))
            sessions,
      )
    ]

-- The fields `ok` and `error` of an answer, and its partial result.
abbrev pub result_msg : String → ℕ → ℕ → Answer → CudaResultMsg
result_msg session_id op_id elapsed (done p) = record {
  session_id = session_id;
  op_id = op_id;
  ok = true;
  error = none;
  elapsed_us = elapsed;
  partial = p;
}
result_msg session_id op_id elapsed (refused e) = record {
  session_id = session_id;
  op_id = op_id;
  ok = false;
  error = some e;
  elapsed_us = elapsed;
  partial = no_partial;
}

-- `now` is the clock's reading for the operation, `elapsed` its measured microseconds.
unfoldable pub handle_cuda_op :
    F32 → ℕ → ℕ → String → ℕ → CudaOpKind → CudaSessions → List Message × CudaSessions
handle_cuda_op fl now elapsed session_id op_id op sessions = elim (Map.get session_id sessions) [
  | none ↦ (cuda_result (result_msg session_id op_id 0 (refused "unknown session")) ∷ [], sessions)
  | some s ↦
      let r = exec fl now op s in
      (
        cuda_result (result_msg session_id op_id (min elapsed u64_max) r.0) ∷ [],
        Map.insert session_id r.1 sessions,
      )
]

unfoldable pub handle_gpu_remote_close : CudaSessions → String → CudaSessions
handle_gpu_remote_close sessions session_id = Map.remove session_id sessions
