-- ===== src/Protocol.antt =====
-- crates/gpumesh-protocol/src/lib.rs: the messages of the wire protocol. Bytes are numbers; an
-- `f32` time is kept as the nanoseconds that it is computed from.
pub mod Codec
use gpu_share.Base.{
  ℕ, String, Bool, Option, none, some, List, [], ◌∷◌, ◌*◌, ◌==◌, nat_eq, ◌&◌, show, if◌then◌else◌,
  not,
}
use gpu_share.Base.Int.{ℤ}
use gpu_share.Common.{PeerStatus, JobState, Result, ok, err, protocol, protocol_major}

-- `major` and `minor` are the peer's protocol version.
pub record ProtocolHello : Type 0 where
  pub major : ℕ
  pub minor : ℕ
  pub node_id : String
  pub node_name : String
  pub public_key_hex : String
  pub sharing : Bool
  pub gpu_model : Option String
  pub vram_total_mb : Option ℕ
  pub vram_free_mb : Option ℕ
  pub status : PeerStatus
  pub issued_at : ℤ
  pub signature : String

unfoldable pub check_compat : ProtocolHello → Result (Unit {0})
check_compat hello =
    if not (hello.major == protocol_major)
    then err (
        protocol (
          "incompatible protocol major: peer="
          & show hello.major
          & " local="
          & show protocol_major))
    else ok tt

pub record CudaDeviceInfo : Type 0 where
  pub index : ℕ
  pub name : String
  pub vram_total_mb : ℕ
  pub vram_free_mb : ℕ
  pub compute_capability : Option String

pub data CudaOpKind : Type 0 where
  device_count : CudaOpKind
  device_props : ℕ → CudaOpKind
  malloc : ℕ → CudaOpKind
  free : ℕ → CudaOpKind
  memcpy_htod : ℕ → List ℕ → CudaOpKind
  memcpy_dtoh : ℕ → ℕ → CudaOpKind
  memcpy_dtod : ℕ → ℕ → ℕ → CudaOpKind
  memset : ℕ → ℕ → ℕ → CudaOpKind
  sync : CudaOpKind
  mem_get_info : CudaOpKind
  set_device : ℕ → CudaOpKind
  get_device : CudaOpKind
  event_create : CudaOpKind
  event_destroy : ℕ → CudaOpKind
  event_record : ℕ → CudaOpKind
  event_elapsed : ℕ → ℕ → CudaOpKind
  load_module_ptx : String → CudaOpKind
  launch_kernel : ℕ → String → List ℕ → List ℕ → ℕ → List ℕ → CudaOpKind
  vector_add_f32 : ℕ → ℕ → ℕ → ℕ → CudaOpKind

-- The optional results of a remoted operation, which `CudaResult` carries field by field.
pub record CudaPartial : Type 0 where
  pub device_count : Option ℕ
  pub device : Option CudaDeviceInfo
  pub ptr : Option ℕ
  pub bytes : Option (List ℕ)
  pub free_bytes : Option ℕ
  pub total_bytes : Option ℕ
  pub device_index : Option ℕ
  pub event_id : Option ℕ
  pub module_id : Option ℕ
  pub elapsed : Option ℕ

pub record PeerInfoMsg : Type 0 where
  pub node_id : String
  pub node_name : String
  pub gpu_model : Option String
  pub vram_total_mb : Option ℕ
  pub vram_free_mb : Option ℕ
  pub utilization : Option ℕ
  pub temperature_c : Option ℕ
  pub status : PeerStatus
  pub sharing : Bool
  pub addrs : List String

pub record RunJobRequest : Type 0 where
  pub job_id : String
  pub image : String
  pub command : List String
  pub env : List (String × String)
  pub workdir : String
  pub transfer_id : Option String
  pub gpu_memory_mb : Option ℕ

pub data LogStream : Type 0 where
  stdout stderr system : LogStream

pub data FileDirection : Type 0 where
  upload download : FileDirection

pub record FileOffer : Type 0 where
  pub transfer_id : String
  pub path : String
  pub size : ℕ
  pub sha256_hex : String
  pub direction : FileDirection

pub record FileChunk : Type 0 where
  pub transfer_id : String
  pub offset : ℕ
  pub bytes : List ℕ
  pub eof : Bool

pub record FileAck : Type 0 where
  pub transfer_id : String
  pub ok : Bool
  pub error : Option String
  pub resume_from : Option ℕ

pub record GroupJoin : Type 0 where
  pub group_id : String
  pub group_name : String
  pub member_node_id : String
  pub member_name : String
  pub public_key_hex : String
  pub signature : String

pub record ExecRequest : Type 0 where
  pub session_id : String
  pub image : String
  pub command : List String

pub record JobStatusMsg : Type 0 where
  pub job_id : String
  pub state : JobState
  pub exit_code : Option ℤ
  pub error : Option String
  pub gpu_util : Option ℕ
  pub vram_used_mb : Option ℕ
  pub vram_total_mb : Option ℕ

pub record DesktopOfferMsg : Type 0 where
  pub session_id : String
  pub backend : String
  pub host_port : ℕ
  pub suggest_local_port : ℕ
  pub viewer_hint : String

pub record GpuRemoteOfferMsg : Type 0 where
  pub session_id : String
  pub api : String
  pub backend : String
  pub max_alloc_bytes : ℕ
  pub devices : List CudaDeviceInfo
  pub lan_warning : String

pub record CudaResultMsg : Type 0 where
  pub session_id : String
  pub op_id : ℕ
  pub ok : Bool
  pub error : Option String
  pub elapsed_us : ℕ
  pub partial : CudaPartial

pub data Message : Type 0 where
  hello : ProtocolHello → Message
  hello_ack : ProtocolHello → Message
  ping : ℕ → Message
  pong : ℕ → Message
  peer_info_request : Message
  peer_info : PeerInfoMsg → Message
  run_job : RunJobRequest → Message
  job_accepted : String → Message
  job_rejected : String → Message
  job_log : String → LogStream → String → Message
  job_status : JobStatusMsg → Message
  cancel_job : String → Message
  cancel_ack : String → Bool → Message
  file_offer : FileOffer → Message
  file_chunk : FileChunk → Message
  file_ack : FileAck → Message
  group_join_notify : GroupJoin → Message
  exec_request : ExecRequest → Message
  exec_output : String → List ℕ → Message
  exec_close : String → Option ℤ → Message
  error : String → Message
  desktop_request : List String → Message
  desktop_offer : DesktopOfferMsg → Message
  desktop_reject : String → Message
  gpu_remote_open : String → ℕ → Message
  gpu_remote_offer : GpuRemoteOfferMsg → Message
  gpu_remote_reject : String → Message
  cuda_op : String → ℕ → CudaOpKind → Message
  cuda_result : CudaResultMsg → Message
  gpu_remote_close : String → Message
