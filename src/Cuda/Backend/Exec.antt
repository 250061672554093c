-- ===== src/Cuda/Backend/Exec.antt =====
-- `exec` of crates/gpumesh-core/src/cuda_backend.rs: the dispatch of every remoted operation, with
-- the operations that it does in place. `now` is the clock's reading.
use gpu_share.Protocol.{
  sync, event_create, mem_get_info, get_device, device_count, launch_kernel, load_module_ptx,
  vector_add_f32, memset, memcpy_dtod, memcpy_dtoh, memcpy_htod, free, malloc, event_elapsed,
  event_record, event_destroy, set_device, device_props, CudaOpKind,
}
use gpu_share.Cuda.Backend.Kernels.{op_launch, op_load_ptx, op_vector_add}
use gpu_share.Base.{
  saturating_add, show, leb, u64_max, get_elem?, ℕ, none, some, if◌then◌else◌, nat_eq, string_eq,
  ◌-◌, ◌*◌, min, ◌&◌, length,
}
use gpu_share.Base.Map
use gpu_share.Base.Map.{Map}
use gpu_share.Cuda.Backend.{
  F32, op_memset, op_dtod, op_dtoh, op_htod, op_free, op_malloc, no_partial, refused, done, Reply,
  BackendSession,
}

unfoldable pub op_device_props : BackendSession → ℕ → Reply
op_device_props s device = elim (get_elem? s.devices device) [
  | some d ↦ (done (record no_partial { device = some d }), s)
  | none ↦ (refused ("invalid device index " & show device), s)
]

unfoldable pub op_set_device : BackendSession → ℕ → Reply
op_set_device s device =
    if leb (length s.devices) device then (refused ("invalid device " & show device), s) else (
      done (record no_partial { device_index = some device }),
      record s { current_device = device },
    )

-- The total memory of the current device, or the session's cap where there is no such device.
unfoldable pub total_bytes_of : BackendSession → ℕ
total_bytes_of s = elim (get_elem? s.devices s.current_device) [
  | some d ↦ min (d.vram_total_mb * (1024 * 1024)) u64_max
  | none ↦ s.max_alloc
]

unfoldable pub op_mem_get_info : BackendSession → Reply
op_mem_get_info s =
    let total = total_bytes_of s in
    let free = min (s.max_alloc - s.used) total in
    (done (record no_partial { free_bytes = some free; total_bytes = some total }), s)

unfoldable pub op_event_create : ℕ → BackendSession → Reply
op_event_create now s = (
  done (record no_partial { event_id = some s.next_event }),
  record s {
    next_event = saturating_add s.next_event 1;
    events = Map.insert s.next_event now s.events;
  },
)

unfoldable pub op_event_destroy : BackendSession → ℕ → Reply
op_event_destroy s event =
    if Map.contains_key event s.events
    then (done no_partial, record s { events = Map.remove event s.events })
    else (refused ("invalid event " & show event), s)

unfoldable pub op_event_record : ℕ → BackendSession → ℕ → Reply
op_event_record now s event =
    if Map.contains_key event s.events
    then (done no_partial, record s { events = Map.insert event now s.events })
    else (refused ("invalid event " & show event), s)

-- The elapsed time stays in nanoseconds, where the source rounds it to an `f32` of milliseconds.
unfoldable pub op_event_elapsed : BackendSession → ℕ → ℕ → Reply
op_event_elapsed s start end_ = elim (Map.get start s.events) [
  | none ↦ (refused "invalid event id(s)", s)
  | some t ↦ elim (Map.get end_ s.events) [
    | none ↦ (refused "invalid event id(s)", s)
    | some u ↦ (done (record no_partial { elapsed = some (u - t) }), s)
  ]
]

unfoldable pub exec : F32 → ℕ → CudaOpKind → BackendSession → Reply
exec fl now device_count s =
    (done (record no_partial { device_count = some (length s.devices) }), s)
exec fl now (device_props device) s = op_device_props s device
exec fl now get_device s = (done (record no_partial { device_index = some s.current_device }), s)
exec fl now (set_device device) s = op_set_device s device
exec fl now mem_get_info s = op_mem_get_info s
exec fl now event_create s = op_event_create now s
exec fl now (event_destroy event) s = op_event_destroy s event
exec fl now (event_record event) s = op_event_record now s event
exec fl now (event_elapsed start end_) s = op_event_elapsed s start end_
exec fl now sync s = (done no_partial, s)
exec fl now (malloc bytes) s = op_malloc s bytes
exec fl now (free ptr) s = op_free s ptr
exec fl now (memcpy_htod dst bytes) s = op_htod s dst bytes
exec fl now (memcpy_dtoh src bytes) s = (op_dtoh s src bytes, s)
exec fl now (memcpy_dtod dst src bytes) s = op_dtod s dst src bytes
exec fl now (memset ptr value bytes) s = op_memset s ptr value bytes
exec fl now (vector_add_f32 a b out n) s = op_vector_add fl s a b out n
exec fl now (load_module_ptx ptx) s = op_load_ptx s ptx
exec fl now (launch_kernel module_id function grid block shared_mem args) s =
    op_launch s module_id function grid block shared_mem args
