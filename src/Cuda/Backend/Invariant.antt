-- ===== src/Cuda/Backend/Invariant.antt =====
-- The accounting of a device session of crates/gpumesh-core/src/cuda_backend.rs.
use gpu_share.Protocol.{CudaDeviceInfo}
use gpu_share.Base.{
  length-replicate, replicate, Option-cases, u64_max, ◌^◌, ℕ, suc, none, List, inl, inr, ◌≡◌, refl,
  arith, nat_eq, string_eq, ◌+◌, ◌*◌, ◌≤◌, ◌<◌, min, max, length,
}
use gpu_share.Base.Map
use gpu_share.Base.Map.{Map}
use gpu_share.Cuda.Backend.{op_malloc, open_session, check_alloc, BackendSession, max_single_alloc}
use gpu_share.Cuda.Backend.Heap.{
  total_size-insert_absent, IsHeap-mono, IsHeap-insert, get-fresh, IsHeap, total_size,
}

-- `k` bounds the operations done so far, and with them the pointers given out.
pub record IsSession (k : ℕ) (s : BackendSession) : Type 0 where
  pub heap : IsHeap s.next_ptr s.host_buffers
  pub accounted : total_size s.host_buffers ≡ s.used
  pub capped : s.used ≤ s.max_alloc
  pub u64 : s.max_alloc < u64_max
  pub pointers : s.next_ptr ≤ 0x1000 + k * (max_single_alloc + 64)
  pub selected : s.current_device < length s.devices

-- Operations that keep the pointers within `u64`.
abbrev pub max_ops : ℕ
max_ops = 2 ^ 35

pub later : (k : ℕ) (s : BackendSession) → IsSession k s → IsSession (suc k) s
later k s w = record {
  heap = w.heap;
  accounted = w.accounted;
  capped = w.capped;
  u64 = w.u64;
  pointers = omega (arith, w.pointers);
  selected = w.selected;
}

pub open_session-IsSession :
    (cap : ℕ) (devices : List CudaDeviceInfo)
    → cap < u64_max
    → 0 < length devices
    → IsSession 0 (open_session cap devices)
unfolding open_session total_size IsHeap
open_session-IsSession cap devices le lt = record {
  heap = tt;
  accounted = refl;
  capped = omega arith;
  u64 = le;
  pointers = omega arith;
  selected = lt;
}

-- An allocation that is let through fits in every cap.
pub check_alloc-eq-none :
    (s : BackendSession) (bytes : ℕ)
    → check_alloc s bytes ≡ none
    → (0 < bytes) × (bytes ≤ max_single_alloc) × (min (s.used + bytes) u64_max ≤ s.max_alloc)
unfolding check_alloc
check_alloc-eq-none s bytes h = ground arith

pub op_malloc-IsSession :
    (k : ℕ) (s : BackendSession) (bytes : ℕ)
    → k < max_ops
    → IsSession k s
    → IsSession (suc k) (op_malloc s bytes).1
unfolding op_malloc
op_malloc-IsSession k s bytes lt w = elim (Option-cases (check_alloc s bytes)) [
  | inr (e, refused_by) ↦ rw (refused_by, op_malloc) (later k s w)
  | inl free ↦
      let (b1, b2, b3) = check_alloc-eq-none s bytes free in
      let absent : Map.get s.next_ptr s.host_buffers ≡ none =
        get-fresh s.next_ptr s.next_ptr s.host_buffers w.heap (omega arith) in
      let size : length {A = ℕ} (replicate bytes 0) ≡ bytes = length-replicate bytes 0 in
      let next : ℕ = min (min (s.next_ptr + max bytes 64) u64_max + 64) u64_max in
      let grows : s.next_ptr < next = omega (arith, w.pointers) in
      rw (free, op_malloc)
        (record {
          heap =
              IsHeap-insert next s.next_ptr (replicate bytes 0) s.host_buffers grows (omega arith)
                (IsHeap-mono s.next_ptr next s.host_buffers (omega arith) w.heap);
          accounted = omega (
            arith,
            w.accounted,
            total_size-insert_absent s.next_ptr (replicate bytes 0) s.host_buffers absent,
          );
          capped = omega (arith, b3);
          u64 = w.u64;
          pointers = omega (arith, w.pointers);
          selected = w.selected;
        })
]
