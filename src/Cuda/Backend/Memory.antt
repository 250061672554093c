-- ===== src/Cuda/Backend/Memory.antt =====
-- The memory operations of crates/gpumesh-core/src/cuda_backend.rs and the bytes that a client reads
-- back.
use gpu_share.Base.{
  length-replicate, sym, length-take, replicate, take-append_self, leb, ◌∙◌, length-drop, ltb, take,
  drop, length-append, ℕ, true, false, some, List, ◌≡◌, refl, ap, arith, ◌==◌, nat_eq, string_eq,
  ◌≤◌, length,
}
use gpu_share.Base.Map
use gpu_share.Base.Map.{Map}
use gpu_share.Cuda.Backend.{
  op_memset, op_dtod, written, Reply, no_partial, max_memcpy, write_buf, done, op_dtoh, overwrite,
  op_htod, read_buf, Answer, BackendSession,
}

-- The answer that carries bytes, as a read gives it.
abbrev pub read_answer : List ℕ → Answer
read_answer bytes = done (record no_partial { bytes = some bytes })

length-overwrite :
    (bytes full : List ℕ)
    → length bytes ≤ length full
    → (length (overwrite bytes full) == length full) ≡ true
length-overwrite bytes full le =
    (nat_eq.beq_iff (length (overwrite bytes full)) (length full)).1 (
      omega
        (arith, length-append bytes (drop (length bytes) full), length-drop (length bytes) full))

-- A write of the buffer's own length.
pub written-write_buf :
    (s : BackendSession) (ptr : ℕ) (bytes buf : List ℕ)
    → Map.get ptr s.host_buffers ≡ some buf
    → (length bytes == length buf) ≡ true
    → written s (write_buf s ptr bytes)
      ≡ (done no_partial, record s { host_buffers = Map.insert ptr bytes s.host_buffers })
unfolding write_buf
written-write_buf s ptr bytes buf found same = rw (found, same, write_buf) refl

-- An upload into a buffer that it fits in.
pub op_htod_lem :
    (s : BackendSession) (dst : ℕ) (bytes buf : List ℕ)
    → Map.get dst s.host_buffers ≡ some buf
    → length bytes ≤ max_memcpy
    → length bytes ≤ length buf
    → op_htod s dst bytes ≡ (
      done no_partial,
      record s { host_buffers = Map.insert dst (overwrite bytes buf) s.host_buffers },
    )
unfolding op_htod read_buf
op_htod_lem s dst bytes buf found le fits =
    let same : (length (overwrite bytes buf) == length buf) ≡ true =
      length-overwrite bytes buf fits in
    let small : ltb max_memcpy (length bytes) ≡ false = ground arith in
    let short : ltb (length buf) (length bytes) ≡ false = ground arith in
    rw (small, found, short, op_htod, read_buf)
      (written-write_buf s dst (overwrite bytes buf) buf found same)

pub op_dtoh_lem :
    (s : BackendSession) (src n : ℕ) (buf : List ℕ)
    → Map.get src s.host_buffers ≡ some buf
    → n ≤ max_memcpy
    → n ≤ length buf
    → op_dtoh s src n ≡ read_answer (take n buf)
unfolding op_dtoh read_buf
op_dtoh_lem s src n buf found le fits =
    let small : ltb max_memcpy n ≡ false = ground arith in
    let short : leb n (length buf) ≡ true = ground arith in
    rw (small, found, short, op_dtoh, read_buf) refl

-- Bytes of at most the size of one copy that are uploaded to a buffer at least as long are
-- accepted, and a download of as many bytes gives exactly them.
pub op_dtoh-op_htod :
    (s : BackendSession) (dst : ℕ) (bytes buf : List ℕ)
    → read_buf s dst ≡ some buf
    → length bytes ≤ max_memcpy
    → length bytes ≤ length buf
    → ((op_htod s dst bytes).0 ≡ done no_partial)
      × (op_dtoh (op_htod s dst bytes).1 dst (length bytes) ≡ read_answer bytes)
unfolding read_buf
op_dtoh-op_htod s dst bytes buf found le fits =
    let t : BackendSession = record s {
      host_buffers = Map.insert dst (overwrite bytes buf) s.host_buffers;
    } in
    let step : op_htod s dst bytes ≡ (done no_partial, t) =
      op_htod_lem s dst bytes buf found le fits in
    let stored : Map.get dst t.host_buffers ≡ some (overwrite bytes buf) =
      Map.get-insert_self dst (overwrite bytes buf) s.host_buffers in
    let long : length bytes ≤ length (overwrite bytes buf) =
      omega (arith, length-append bytes (drop (length bytes) buf)) in
    (
      ap (λ (r : Reply). r.0) step,
      ap (λ (r : Reply). op_dtoh r.1 dst (length bytes)) step
          ∙ op_dtoh_lem t dst (length bytes) (overwrite bytes buf) stored le long
          ∙ ap read_answer (take-append_self bytes (drop (length bytes) buf)),
    )

-- A copy between two buffers that it fits in is accepted, and a download of the destination then
-- gives the bytes that the source had before.
pub op_dtoh-op_dtod :
    (s : BackendSession) (dst src n : ℕ) (from into : List ℕ)
    → read_buf s src ≡ some from
    → read_buf s dst ≡ some into
    → n ≤ max_memcpy
    → n ≤ length from
    → n ≤ length into
    → ((op_dtod s dst src n).0 ≡ done no_partial)
      × (op_dtoh (op_dtod s dst src n).1 dst n ≡ op_dtoh s src n)
unfolding read_buf op_dtod
op_dtoh-op_dtod s dst src n from into found target le fits room =
    let size : length (take n from) ≡ n = omega (arith, length-take n from) in
    let read : op_dtoh s src n ≡ read_answer (take n from) =
      op_dtoh_lem s src n from found le fits in
    let (accepted, back) =
      op_dtoh-op_htod s dst (take n from) into target (omega arith) (omega arith) in
    rw (read, op_dtod)
      (accepted, ap (λ (k : ℕ). op_dtoh (op_htod s dst (take n from)).1 dst k) (sym size) ∙ back)

-- Filling a part of a buffer that holds it is accepted, and a download of that part gives the value
-- in every byte.
pub op_dtoh-op_memset :
    (s : BackendSession) (ptr value n : ℕ) (buf : List ℕ)
    → read_buf s ptr ≡ some buf
    → n ≤ max_memcpy
    → n ≤ length buf
    → ((op_memset s ptr value n).0 ≡ done no_partial)
      × (op_dtoh (op_memset s ptr value n).1 ptr n ≡ read_answer (replicate n value))
unfolding read_buf op_memset
op_dtoh-op_memset s ptr value n buf found le fits =
    let fill : List ℕ = replicate n value in
    let size : length fill ≡ n = length-replicate n value in
    let new : List ℕ = overwrite fill buf in
    let t : BackendSession = record s { host_buffers = Map.insert ptr new s.host_buffers } in
    let short : ltb (length buf) n ≡ false = ground arith in
    let same : (length new == length buf) ≡ true = length-overwrite fill buf (omega arith) in
    let step : op_memset s ptr value n ≡ (done no_partial, t) =
      rw (found, short, op_memset, read_buf) (written-write_buf s ptr new buf found same) in
    let stored : Map.get ptr t.host_buffers ≡ some new =
      Map.get-insert_self ptr new s.host_buffers in
    let long : n ≤ length new = omega (arith, length-append fill (drop (length fill) buf)) in
    (
      ap (λ (r : Reply). r.0) step,
      ap (λ (r : Reply). op_dtoh r.1 ptr n) step
          ∙ op_dtoh_lem t ptr n new stored le long
          ∙ ap (λ (k : ℕ). read_answer (take k new)) (sym size)
          ∙ ap read_answer (take-append_self fill (drop (length fill) buf)),
    )
