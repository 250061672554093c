-- ===== src/Cuda/Backend.antt =====
-- The device session of crates/gpumesh-core/src/cuda_backend.rs on its host-memory backend, which
-- it uses where no CUDA driver is found: `cuda` is `None`.
pub mod Kernels
pub mod Exec
pub mod Heap
pub mod Invariant
pub mod Keeps
pub mod Runs
pub mod Memory
pub mod Frame
pub mod Lanes
pub mod Tests
use gpu_share.Base.{
  show_hex, inl, inr, ◌⊎◌, ◌≡◌, ℕ, zero, suc, String, Bool, true, false, Option, none, some, List,
  [], ◌∷◌, ◌++◌, ◌+◌, ◌-◌, ◌*◌, ◌^◌, ◌||◌, not, ltb, leb, ◌==◌, nat_eq, string_eq, length, take,
  drop, replicate, get_elem?, unwrap_or, saturating_add, u64_max, min, max, all, codes,
  is_ascii_alphanumeric, if◌then◌else◌, ◌&◌, show,
}
use gpu_share.Base.Map
use gpu_share.Base.Map.{Map}
use gpu_share.Protocol.{
  CudaDeviceInfo, CudaPartial, CudaOpKind, device_count, device_props, malloc, free, memcpy_htod,
  memcpy_dtoh, memcpy_dtod, memset, sync, mem_get_info, set_device, get_device, event_create,
  event_destroy, event_record, event_elapsed, load_module_ptx, launch_kernel, vector_add_f32,
}

abbrev pub max_single_alloc : ℕ
max_single_alloc = 256 * 1024 * 1024

abbrev pub max_memcpy : ℕ
max_memcpy = 64 * 1024 * 1024

abbrev pub max_ptx_bytes : ℕ
max_ptx_bytes = 256 * 1024

abbrev pub max_kernel_args : ℕ
max_kernel_args = 16

-- `f32` addition on the four little-endian bytes of its arguments.
pub record F32 : Type 0 where
  pub add : List ℕ → List ℕ → List ℕ
  pub length-add : (x y : List ℕ) → length (add x y) ≡ 4

pub record BackendSession : Type 0 where
  pub devices : List CudaDeviceInfo
  pub max_alloc : ℕ
  pub used : ℕ
  pub next_ptr : ℕ
  pub next_event : ℕ
  pub next_module : ℕ
  pub current_device : ℕ
  -- An `Instant` is the clock's reading in nanoseconds.
  pub events : Map ℕ ℕ
  pub host_buffers : Map ℕ (List ℕ)

unfoldable pub open_session : ℕ → List CudaDeviceInfo → BackendSession
open_session max_alloc devices = record {
  devices = devices;
  max_alloc = max_alloc;
  used = 0;
  next_ptr = 0x1000;
  next_event = 1;
  next_module = 1;
  current_device = 0;
  events = [];
  host_buffers = [];
}

abbrev pub no_partial : CudaPartial
no_partial = record {
  device_count = none;
  device = none;
  ptr = none;
  bytes = none;
  free_bytes = none;
  total_bytes = none;
  device_index = none;
  event_id = none;
  module_id = none;
  elapsed = none;
}

-- The answer `(ok, error, partial)` of an operation: `done` is `(true, None, p)` and `refused` is
-- `(false, Some(e), default)`.
pub data Answer : Type 0 where
  done : CudaPartial → Answer
  refused : String → Answer

abbrev pub Reply : Type 0
Reply = Answer × BackendSession

-- `check_alloc`: the error's text, if the allocation is refused.
unfoldable pub check_alloc : BackendSession → ℕ → Option String
check_alloc s bytes =
    if bytes == 0
    then some "cudaMalloc size 0"
    else if ltb max_single_alloc bytes
    then some ("alloc " & show bytes & " exceeds per-buffer cap " & show max_single_alloc)
    else if ltb s.max_alloc (saturating_add s.used bytes)
    then some (
        "session alloc cap exceeded (used "
        & show s.used
        & " + "
        & show bytes
        & " > "
        & show s.max_alloc
        & ")")
    else none

unfoldable pub op_malloc : BackendSession → ℕ → Reply
op_malloc s bytes = elim (check_alloc s bytes) [
  | some e ↦ (refused e, s)
  | none ↦ (
    done (record no_partial { ptr = some s.next_ptr }),
    record s {
      next_ptr = saturating_add (saturating_add s.next_ptr (max bytes 64)) 64;
      host_buffers = Map.insert s.next_ptr (replicate bytes 0) s.host_buffers;
      used = saturating_add s.used bytes;
    },
  )
]

unfoldable pub op_free : BackendSession → ℕ → Reply
op_free s ptr = elim (Map.get ptr s.host_buffers) [
  | some buf ↦ (
    done no_partial,
    record s { host_buffers = Map.remove ptr s.host_buffers; used = s.used - length buf },
  )
  | none ↦ (refused ("invalid device ptr " & show_hex ptr), s)
]

unfoldable pub read_buf : BackendSession → ℕ → Option (List ℕ)
read_buf s ptr = Map.get ptr s.host_buffers

-- `write_buf`: the new session, or the error's text.
unfoldable pub write_buf : BackendSession → ℕ → List ℕ → BackendSession ⊎ String
write_buf s ptr bytes = elim (Map.get ptr s.host_buffers) [
  | none ↦ inr ("invalid ptr " & show_hex ptr)
  | some buf ↦
      if not (length bytes == length buf)
      then inr "buffer size mismatch on write"
      else inl (record s { host_buffers = Map.insert ptr bytes s.host_buffers })
]

abbrev pub written : BackendSession → BackendSession ⊎ String → Reply
written s (inl s') = (done no_partial, s')
written s (inr e) = (refused e, s)

-- `full[..data.len()].copy_from_slice(&data)`
abbrev pub overwrite : List ℕ → List ℕ → List ℕ
overwrite bytes full = bytes ++ drop (length bytes) full

unfoldable pub op_htod : BackendSession → ℕ → List ℕ → Reply
op_htod s dst bytes =
    if ltb max_memcpy (length bytes)
    then (refused "memcpy too large", s)
    else elim (read_buf s dst) [
      | none ↦ (refused ("invalid ptr " & show_hex dst), s)
      | some full ↦
          if ltb (length full) (length bytes)
          then (refused "HtoD overflows buffer", s)
          else written s (write_buf s dst (overwrite bytes full))
    ]

-- This operation does not change the session.
unfoldable pub op_dtoh : BackendSession → ℕ → ℕ → Answer
op_dtoh s src bytes =
    if ltb max_memcpy bytes then refused "memcpy too large" else elim (read_buf s src) [
      | none ↦ refused ("invalid ptr " & show_hex src)
      | some full ↦
          if leb bytes (length full)
          then done (record no_partial { bytes = some (take bytes full) })
          else refused "DtoH overflows buffer"
    ]

unfoldable pub op_dtod : BackendSession → ℕ → ℕ → ℕ → Reply
op_dtod s dst src bytes = elim (op_dtoh s src bytes) [
  | refused e ↦ (refused e, s)
  | done p ↦ op_htod s dst (unwrap_or p.bytes [])
]

-- `buf_len`, which answers the error of `read_buf` for an unknown pointer.
unfoldable pub buf_len : BackendSession → ℕ → Option ℕ
buf_len s ptr = elim (Map.get ptr s.host_buffers) [ none ↦ none | some buf ↦ some (length buf) ]

unfoldable pub op_memset : BackendSession → ℕ → ℕ → ℕ → Reply
op_memset s ptr value bytes = elim (read_buf s ptr) [
  | none ↦ (refused ("invalid ptr " & show_hex ptr), s)
  | some full ↦
      if ltb (length full) bytes
      then (refused "memset overflows buffer", s)
      else written s (write_buf s ptr (overwrite (replicate bytes value) full))
]
