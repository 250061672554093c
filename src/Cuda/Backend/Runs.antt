-- ===== src/Cuda/Backend/Runs.antt =====
-- Sequences of operations of crates/gpumesh-core/src/cuda_backend.rs on one session.
use gpu_share.Cuda.Backend.Keeps.{
  op_memset-IsSession, op_dtod-IsSession, op_htod-IsSession, op_free-IsSession, written-IsSession,
}
use gpu_share.Protocol.{
  event_create, get_device, mem_get_info, sync, device_count, vector_add_f32, launch_kernel,
  load_module_ptx, event_elapsed, event_record, event_destroy, set_device, memset, memcpy_dtod,
  memcpy_dtoh, memcpy_htod, free, malloc, device_props, CudaDeviceInfo, CudaOpKind,
}
use mathlib.Core.Path.{subst}
use gpu_share.Cuda.Backend.Exec.{
  op_event_create, op_mem_get_info, exec, op_event_destroy, op_device_props, op_set_device,
  op_event_elapsed, op_event_record,
}
use gpu_share.Cuda.Backend.Kernels.{
  with_buf, sum_lanes, check_lens, op_load_ptx, op_launch, op_vector_add,
}
use gpu_share.Base.{
  saturating_add, u64_max, leb, Option-cases, Bool-cases, ℕ, suc, String, List, [], ◌∷◌, inl, inr,
  ◌≡◌, sym, arith, nat_eq, string_eq, ◌+◌, ◌*◌, ◌≤◌, ◌<◌, length,
}
use gpu_share.Base.Map
use gpu_share.Base.Map.{Map}
use gpu_share.Cuda.Backend.{open_session, Reply, F32, BackendSession}
use gpu_share.Cuda.Backend.Invariant.{
  op_malloc-IsSession, open_session-IsSession, later, max_ops, IsSession,
}

-- A reply of a read that was refused, or one made of three reads.
with_buf-IsSession :
    (k : ℕ) (s : BackendSession) (p : ℕ) (f : List ℕ → Reply)
    → IsSession k s
    → ((b : List ℕ) → IsSession k (f b).1)
    → IsSession k (with_buf s p f).1
with_buf-IsSession k s p f w h = elim (Option-cases (Map.get p s.host_buffers)) [
  | inl unknown ↦ rw (unknown, with_buf) w
  | inr (b, found) ↦ rw (found, with_buf) (h b)
]

op_vector_add-IsSession :
    (fl : F32) (k : ℕ) (s : BackendSession) (a b out n : ℕ)
    → IsSession k s
    → IsSession k (op_vector_add fl s a b out n).1
unfolding op_vector_add
op_vector_add-IsSession fl k s a b out n w =
    elim (Option-cases (check_lens s (n * 4) (a ∷ b ∷ out ∷ []))) [
      | inr (e, bad) ↦ rw (bad, op_vector_add) w
      | inl good ↦
          rw (good, op_vector_add)
            (with_buf-IsSession k s a _ w λ ab. with_buf-IsSession k s b _ w λ bb.
              with_buf-IsSession k s out _ w
                λ ob. written-IsSession k s out (sum_lanes fl n ab bb ob) w)
    ]

-- What touches neither the buffers nor the counters of memory.
module _ (k : ℕ) (s : BackendSession) (w : IsSession k s) where
  with_events :
      (ev : Map ℕ ℕ) (next : ℕ) → IsSession k (record s { events = ev; next_event = next })
  with_events ev next = record {
    heap = w.heap;
    accounted = w.accounted;
    capped = w.capped;
    u64 = w.u64;
    pointers = w.pointers;
    selected = w.selected;
  }

  op_set_device-IsSession : (d : ℕ) → IsSession k (op_set_device s d).1
  unfolding op_set_device
  op_set_device-IsSession d = elim (Bool-cases (leb (length s.devices) d)) [
    | inl bad ↦ rw (bad, op_set_device) w
    | inr good ↦
        rw (good, op_set_device)
          (record {
            heap = w.heap;
            accounted = w.accounted;
            capped = w.capped;
            u64 = w.u64;
            pointers = w.pointers;
            selected = ground arith;
          })
  ]

  op_event_destroy-IsSession : (e : ℕ) → IsSession k (op_event_destroy s e).1
  unfolding op_event_destroy
  op_event_destroy-IsSession e = elim (Bool-cases (Map.contains_key e s.events)) [
    | inl known ↦ rw (known, op_event_destroy) (with_events (Map.remove e s.events) s.next_event)
    | inr other ↦ rw (other, op_event_destroy) w
  ]

  op_event_record-IsSession : (now e : ℕ) → IsSession k (op_event_record now s e).1
  unfolding op_event_record
  op_event_record-IsSession now e = elim (Bool-cases (Map.contains_key e s.events)) [
    | inl known ↦ rw (known, op_event_record) (with_events (Map.insert e now s.events) s.next_event)
    | inr other ↦ rw (other, op_event_record) w
  ]

-- Queries and refused operations, which leave the session as it is.
pub op_device_props-same : (s : BackendSession) (d : ℕ) → (op_device_props s d).1 ≡ s
unfolding op_device_props
op_device_props-same s d = ground arith

pub op_event_elapsed-same : (s : BackendSession) (a b : ℕ) → (op_event_elapsed s a b).1 ≡ s
unfolding op_event_elapsed
op_event_elapsed-same s a b = ground arith

pub op_load_ptx-same : (s : BackendSession) (ptx : String) → (op_load_ptx s ptx).1 ≡ s
unfolding op_load_ptx
op_load_ptx-same s ptx = ground arith

pub op_launch-same :
    (s : BackendSession) (m : ℕ) (f : String) (g b : List ℕ) (sh : ℕ) (args : List ℕ)
    → (op_launch s m f g b sh args).1 ≡ s
unfolding op_launch
op_launch-same s m f g b sh args = ground arith

back : (k : ℕ) (s t : BackendSession) → t ≡ s → IsSession k s → IsSession k t
back k s t e w = subst (λ (x : BackendSession). IsSession k x) (sym e) w

pub exec-IsSession :
    (fl : F32) (now k : ℕ) (op : CudaOpKind) (s : BackendSession)
    → k < max_ops
    → IsSession k s
    → IsSession (suc k) (exec fl now op s).1
unfolding exec op_mem_get_info op_event_create
exec-IsSession fl now k device_count s lt w = later k s w
exec-IsSession fl now k (device_props d) s lt w =
    back (suc k) s (op_device_props s d).1 (op_device_props-same s d) (later k s w)
exec-IsSession fl now k (malloc bytes) s lt w = op_malloc-IsSession k s bytes lt w
exec-IsSession fl now k (free ptr) s lt w = later k _ (op_free-IsSession k s ptr w)
exec-IsSession fl now k (memcpy_htod dst bytes) s lt w =
    later k _ (op_htod-IsSession k s dst bytes w)
exec-IsSession fl now k (memcpy_dtoh src bytes) s lt w = later k s w
exec-IsSession fl now k (memcpy_dtod dst src bytes) s lt w =
    later k _ (op_dtod-IsSession k s dst src bytes w)
exec-IsSession fl now k (memset ptr value bytes) s lt w =
    later k _ (op_memset-IsSession k s ptr value bytes w)
exec-IsSession fl now k sync s lt w = later k s w
exec-IsSession fl now k mem_get_info s lt w = later k s w
exec-IsSession fl now k (set_device d) s lt w = later k _ (op_set_device-IsSession k s w d)
exec-IsSession fl now k get_device s lt w = later k s w
exec-IsSession fl now k event_create s lt w =
    later k _
      (with_events k s w (Map.insert s.next_event now s.events) (saturating_add s.next_event 1))
exec-IsSession fl now k (event_destroy e) s lt w = later k _ (op_event_destroy-IsSession k s w e)
exec-IsSession fl now k (event_record e) s lt w = later k _ (op_event_record-IsSession k s w now e)
exec-IsSession fl now k (event_elapsed a b) s lt w =
    back (suc k) s (op_event_elapsed s a b).1 (op_event_elapsed-same s a b) (later k s w)
exec-IsSession fl now k (load_module_ptx ptx) s lt w =
    back (suc k) s (op_load_ptx s ptx).1 (op_load_ptx-same s ptx) (later k s w)
exec-IsSession fl now k (launch_kernel m f g b sh args) s lt w =
    back (suc k) s (op_launch s m f g b sh args).1 (op_launch-same s m f g b sh args) (later k s w)
exec-IsSession fl now k (vector_add_f32 a b out n) s lt w =
    later k _ (op_vector_add-IsSession fl k s a b out n w)

-- The operations of a client in order, each with the clock's reading at its time.
unfoldable pub run : F32 → List (ℕ × CudaOpKind) → BackendSession → BackendSession
run fl [] s = s
run fl ((now, op) ∷ ops) s = run fl ops (exec fl now op s).1

run-IsSession :
    (fl : F32) (ops : List (ℕ × CudaOpKind)) (k : ℕ) (s : BackendSession)
    → k + length ops ≤ max_ops
    → IsSession k s
    → IsSession (k + length ops) (run fl ops s)
unfolding run
run-IsSession fl [] k s le w = subst (λ (n : ℕ). IsSession n s) (omega arith) w
run-IsSession fl ((now, op) ∷ ops) k s le w =
    subst (λ (n : ℕ). IsSession n (run fl ops (exec fl now op s).1)) (omega arith)
      (run-IsSession fl ops (suc k) (exec fl now op s).1 (omega arith)
        (exec-IsSession fl now k op s (omega arith) w))

-- A session that was opened over at least one device, with a cap below the largest `u64`, and that
-- has done at most 2 ^ 35 operations of any kinds in any order: the bytes counted as used are
-- exactly those of the live buffers and stay within the cap, every live pointer is below the next
-- one and has one buffer, which is no longer than one allocation may be, and the selected device
-- exists.
pub run-open_session :
    (fl : F32) (max_alloc : ℕ) (devices : List CudaDeviceInfo) (ops : List (ℕ × CudaOpKind))
    → max_alloc < u64_max
    → 0 < length devices
    → length ops ≤ max_ops
    → IsSession (length ops) (run fl ops (open_session max_alloc devices))
run-open_session fl max_alloc devices ops below some_device le =
    let w : IsSession 0 (open_session max_alloc devices) =
      open_session-IsSession max_alloc devices below some_device in
    subst (λ (n : ℕ). IsSession n (run fl ops (open_session max_alloc devices))) (omega arith)
      (run-IsSession fl ops 0 (open_session max_alloc devices) (omega arith) w)
