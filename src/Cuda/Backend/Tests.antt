-- ===== src/Cuda/Backend/Tests.antt =====
-- Runs of a device session over one device and a cap of 4096 bytes.
use gpu_share.Cuda.Backend.Lanes.{op_vector_add_lem, IsSum}
use gpu_share.Cuda.Backend.Memory.{op_dtoh-op_htod, read_answer}
use gpu_share.Cuda.Backend.Frame.{exec_refused}
use gpu_share.Cuda.Backend.Kernels.{op_vector_add}
use gpu_share.Cuda.Backend.Runs.{run-open_session, run}
use gpu_share.Protocol.{free, memcpy_htod, memcpy_dtoh, malloc, CudaDeviceInfo, CudaOpKind}
use gpu_share.Cuda.Backend.Exec.{exec}
use gpu_share.Base.{ℕ, none, some, List, [], ◌∷◌, ◌≡◌, refl, arith, nat_eq, string_eq, ◌+◌, length}
use gpu_share.Base.Map
use gpu_share.Base.Map.{Map}
use gpu_share.Cuda.Backend.{
  write_buf, op_free, no_partial, check_alloc, refused, op_malloc, op_dtoh, done, open_session,
  op_htod, read_buf, F32, BackendSession,
}
use gpu_share.Cuda.Backend.Invariant.{IsSession}

-- A sum of words without carry between their bytes stands for `f32` addition.
word_sum : List ℕ → List ℕ → List ℕ
word_sum (a ∷ x) (b ∷ y) = (a + b) ∷ 0 ∷ 0 ∷ 0 ∷ []
word_sum _ _ = 0 ∷ 0 ∷ 0 ∷ 0 ∷ []

length-word_sum : (x y : List ℕ) → length (word_sum x y) ≡ 4
unfolding word_sum
length-word_sum [] y = refl
length-word_sum (a ∷ x) [] = refl
length-word_sum (a ∷ x) (b ∷ y) = refl

abbrev toy_floats : F32
unfolding word_sum
toy_floats = record { add = word_sum; length-add = length-word_sum }

abbrev gpu : CudaDeviceInfo
gpu = record {
  index = 0;
  name = "RTX";
  vram_total_mb = 8192;
  vram_free_mb = 8000;
  compute_capability = none;
}

-- Two buffers of eight bytes, the first at 0x1000 and the second at 0x1080.
abbrev two_buffers : BackendSession
two_buffers = record (open_session 4096 (gpu ∷ [])) {
  used = 16;
  next_ptr = 0x1100;
  host_buffers =
      (0x1000, 1 ∷ 0 ∷ 0 ∷ 0 ∷ 2 ∷ 0 ∷ 0 ∷ 0 ∷ [])
      ∷ (0x1080, 5 ∷ 0 ∷ 0 ∷ 0 ∷ 6 ∷ 0 ∷ 0 ∷ 0 ∷ [])
      ∷ [];
}

abbrev ops : List (ℕ × CudaOpKind)
ops = (1, malloc 8) ∷ (2, malloc 8) ∷ (3, memcpy_htod 0x1000 (1 ∷ [])) ∷ (4, free 0x1000) ∷ []

ops_work : (run toy_floats ops (open_session 4096 (gpu ∷ []))).used ≡ 8
unfolding run exec op_malloc check_alloc op_free op_htod read_buf write_buf open_session Map.get
    Map.insert Map.remove
ops_work = refl

run-open_session_example : IsSession 4 (run toy_floats ops (open_session 4096 (gpu ∷ [])))
run-open_session_example =
    run-open_session toy_floats 4096 (gpu ∷ []) ops (omega arith) (omega arith) (omega arith)

two_found :
    (read_buf two_buffers 0x1000 ≡ some (1 ∷ 0 ∷ 0 ∷ 0 ∷ 2 ∷ 0 ∷ 0 ∷ 0 ∷ []))
    × (read_buf two_buffers 0x1080 ≡ some (5 ∷ 0 ∷ 0 ∷ 0 ∷ 6 ∷ 0 ∷ 0 ∷ 0 ∷ []))
unfolding read_buf Map.get open_session
two_found = (refl, refl)

op_dtoh-op_htod_example :
    ((op_htod two_buffers 0x1000 (9 ∷ 8 ∷ [])).0 ≡ done no_partial)
    × (op_dtoh (op_htod two_buffers 0x1000 (9 ∷ 8 ∷ [])).1 0x1000 2 ≡ read_answer (9 ∷ 8 ∷ []))
op_dtoh-op_htod_example =
    op_dtoh-op_htod two_buffers 0x1000 (9 ∷ 8 ∷ []) (1 ∷ 0 ∷ 0 ∷ 0 ∷ 2 ∷ 0 ∷ 0 ∷ 0 ∷ []) two_found.0
      (omega arith) (omega arith)

op_vector_add_lem_example :
    ((op_vector_add toy_floats two_buffers 0x1000 0x1080 0x1080 1).0 ≡ done no_partial)
    × ((new : List ℕ) × ((read_buf
              (op_vector_add toy_floats two_buffers 0x1000 0x1080 0x1080 1).1
              0x1080
            ≡ some new)
          × IsSum toy_floats 1
              (1 ∷ 0 ∷ 0 ∷ 0 ∷ 2 ∷ 0 ∷ 0 ∷ 0 ∷ [])
              (5 ∷ 0 ∷ 0 ∷ 0 ∷ 6 ∷ 0 ∷ 0 ∷ 0 ∷ [])
              (5 ∷ 0 ∷ 0 ∷ 0 ∷ 6 ∷ 0 ∷ 0 ∷ 0 ∷ [])
              new))
op_vector_add_lem_example =
    op_vector_add_lem toy_floats two_buffers 0x1000 0x1080 0x1080 1
      (1 ∷ 0 ∷ 0 ∷ 0 ∷ 2 ∷ 0 ∷ 0 ∷ 0 ∷ []) (5 ∷ 0 ∷ 0 ∷ 0 ∷ 6 ∷ 0 ∷ 0 ∷ 0 ∷ [])
      (5 ∷ 0 ∷ 0 ∷ 0 ∷ 6 ∷ 0 ∷ 0 ∷ 0 ∷ []) two_found.0 two_found.1 two_found.1 (omega arith)
      (omega arith) (omega arith)

overflow_refused :
    (exec toy_floats 1 (memcpy_dtoh 0x1000 9) two_buffers).0 ≡ refused "DtoH overflows buffer"
unfolding exec op_dtoh read_buf Map.get open_session
overflow_refused = refl

exec_refused_example : (exec toy_floats 1 (memcpy_dtoh 0x1000 9) two_buffers).1 ≡ two_buffers
exec_refused_example =
    exec_refused toy_floats 1 (memcpy_dtoh 0x1000 9) two_buffers "DtoH overflows buffer"
      overflow_refused
