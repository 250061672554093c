-- ===== src/Cuda/Backend/Keeps.antt =====
-- The memory operations of crates/gpumesh-core/src/cuda_backend.rs and the accounting.
use gpu_share.Cuda.Backend.Heap.{
  total_size-insert, IsHeap-insert, IsHeap-remove, total_size-remove, get-length_le, total_size,
}
use gpu_share.Base.{
  unwrap_or, replicate, ltb, Bool-cases, Option-cases, ℕ, List, [], inl, inr, ◌≡◌, arith, ◌==◌,
  nat_eq, string_eq, ◌+◌, length,
}
use gpu_share.Base.Map
use gpu_share.Base.Map.{Map}
use gpu_share.Cuda.Backend.{
  op_dtoh, done, overwrite, max_memcpy, refused, Reply, written, Answer, read_buf, op_memset,
  op_htod, op_dtod, op_free, write_buf, BackendSession,
}
use gpu_share.Cuda.Backend.Invariant.{IsSession}

pub op_free-IsSession :
    (k : ℕ) (s : BackendSession) (ptr : ℕ) → IsSession k s → IsSession k (op_free s ptr).1
unfolding op_free
op_free-IsSession k s ptr w = elim (Option-cases (Map.get ptr s.host_buffers)) [
  | inl unknown ↦ rw (unknown, op_free) w
  | inr (b, found) ↦
      let less : total_size (Map.remove ptr s.host_buffers) + length b ≡ total_size s.host_buffers =
        total_size-remove s.next_ptr ptr b s.host_buffers w.heap found in
      rw (found, op_free)
        (record {
          heap = IsHeap-remove s.next_ptr ptr s.host_buffers w.heap;
          accounted = omega (arith, w.accounted);
          capped = omega (arith, w.capped);
          u64 = w.u64;
          pointers = w.pointers;
          selected = w.selected;
        })
]

-- A write puts a buffer of the same length in the old one's place, or changes nothing.
pub written-IsSession :
    (k : ℕ) (s : BackendSession) (ptr : ℕ) (bytes : List ℕ)
    → IsSession k s
    → IsSession k (written s (write_buf s ptr bytes)).1
unfolding write_buf
written-IsSession k s ptr bytes w = elim (Option-cases (Map.get ptr s.host_buffers)) [
  | inl unknown ↦ rw (unknown, write_buf) w
  | inr (b, found) ↦ elim (Bool-cases (length bytes == length b)) [
    | inr other ↦ rw (found, other, write_buf) w
    | inl same ↦
        let (small, below) = get-length_le s.next_ptr ptr s.host_buffers b w.heap found in
        let size : length bytes ≡ length b = (nat_eq.beq_iff (length bytes) (length b)).0 same in
        rw (found, same, write_buf)
          (record {
            heap = IsHeap-insert s.next_ptr ptr bytes s.host_buffers below (omega arith) w.heap;
            accounted =
                omega (arith, w.accounted, total_size-insert ptr bytes b s.host_buffers found);
            capped = w.capped;
            u64 = w.u64;
            pointers = w.pointers;
            selected = w.selected;
          })
  ]
]

pub op_htod-IsSession :
    (k : ℕ) (s : BackendSession) (dst : ℕ) (bytes : List ℕ)
    → IsSession k s
    → IsSession k (op_htod s dst bytes).1
unfolding op_htod read_buf
op_htod-IsSession k s dst bytes w = elim (Bool-cases (ltb max_memcpy (length bytes))) [
  | inl large ↦ rw (large, op_htod) w
  | inr fits ↦ elim (Option-cases (Map.get dst s.host_buffers)) [
    | inl unknown ↦ rw (fits, unknown, op_htod, read_buf) w
    | inr (b, found) ↦ elim (Bool-cases (ltb (length b) (length bytes))) [
      | inl long ↦ rw (fits, found, long, op_htod, read_buf) w
      | inr short ↦
          rw (fits, found, short, op_htod, read_buf)
            (written-IsSession k s dst (overwrite bytes b) w)
    ]
  ]
]

pub op_dtod-IsSession :
    (k : ℕ) (s : BackendSession) (dst src bytes : ℕ)
    → IsSession k s
    → IsSession k (op_dtod s dst src bytes).1
unfolding op_dtod
op_dtod-IsSession k s dst src bytes w = go (op_dtoh s src bytes)
  where
    go :
        (a : Answer)
        → IsSession k
            (elim a as (λ _. Reply) [
              | refused e ↦ (refused e, s)
              | done p ↦ op_htod s dst (unwrap_or p.bytes [])
            ]).1
    go (refused e) = w
    go (done p) = op_htod-IsSession k s dst (unwrap_or p.bytes []) w

pub op_memset-IsSession :
    (k : ℕ) (s : BackendSession) (ptr value bytes : ℕ)
    → IsSession k s
    → IsSession k (op_memset s ptr value bytes).1
unfolding op_memset read_buf
op_memset-IsSession k s ptr value bytes w = elim (Option-cases (Map.get ptr s.host_buffers)) [
  | inl unknown ↦ rw (unknown, op_memset, read_buf) w
  | inr (b, found) ↦ elim (Bool-cases (ltb (length b) bytes)) [
    | inl long ↦ rw (found, long, op_memset, read_buf) w
    | inr short ↦
        rw (found, short, op_memset, read_buf)
          (written-IsSession k s ptr (overwrite (replicate bytes value) b) w)
  ]
]
