-- ===== src/Cuda/Backend/Kernels.antt =====
-- Vector addition, modules and launches of crates/gpumesh-core/src/cuda_backend.rs, on the
-- host-memory backend.
use gpu_share.Base.Map
use gpu_share.Base.{
  zero, string_eq, leb, show_hex, codes, show, all, ◌&◌, length, some, drop, [], byte_len, nat_eq,
  ◌∷◌, ◌++◌, ltb, ◌==◌, none, ◌||◌, if◌then◌else◌, ◌*◌, take, not, Option, suc,
  is_ascii_alphanumeric, String, List, Bool, ℕ,
}
use gpu_share.Cuda.Backend.{
  written, refused, max_kernel_args, max_ptx_bytes, write_buf, Reply, buf_len, F32, BackendSession,
}

-- The loop over the lanes: each one's four bytes of the output are overwritten by the sum.
unfoldable pub sum_lanes : F32 → ℕ → List ℕ → List ℕ → List ℕ → List ℕ
sum_lanes fl zero ab bb ob = ob
sum_lanes fl (suc n) ab bb ob =
    fl.add (take 4 ab) (take 4 bb) ++ sum_lanes fl n (drop 4 ab) (drop 4 bb) (drop 4 ob)

-- The first refusal of the loop over the three buffers.
unfoldable pub check_lens : BackendSession → ℕ → List ℕ → Option String
check_lens s need [] = none
check_lens s need (p ∷ ps) =
    let rest = check_lens s need ps in
    elim (buf_len s p) [
      | none ↦ some ("invalid ptr " & show_hex p)
      | some len ↦ if leb need len then rest else some "vector_add buffer too small"
    ]

-- `read_buf` with its error returned at once.
abbrev pub with_buf : BackendSession → ℕ → (List ℕ → Reply) → Reply
with_buf s p k = elim (Map.get p s.host_buffers) [
  | none ↦ (refused ("invalid ptr " & show_hex p), s)
  | some buf ↦ k buf
]

unfoldable pub op_vector_add : F32 → BackendSession → ℕ → ℕ → ℕ → ℕ → Reply
op_vector_add fl s a b out n = elim (check_lens s (n * 4) (a ∷ b ∷ out ∷ [])) [
  | some e ↦ (refused e, s)
  | none ↦ with_buf s a λ ab.
      with_buf s b λ bb. with_buf s out λ ob. written s (write_buf s out (sum_lanes fl n ab bb ob))
]

unfoldable pub op_load_ptx : BackendSession → String → Reply
op_load_ptx s ptx =
    if ltb max_ptx_bytes (byte_len ptx)
    then (refused ("PTX exceeds " & show max_ptx_bytes & " bytes"), s)
    else (refused "LoadModulePtx requires cuda-driver backend", s)

abbrev is_name_char : ℕ → Bool
is_name_char c = is_ascii_alphanumeric c || c == b'_'

-- The name is not empty, has 128 bytes at most, and only letters, digits and underscores.
unfoldable pub is_function_name : String → Bool
is_function_name f = not ((f == "") || ltb 128 (byte_len f) || not (all is_name_char (codes f)))

unfoldable pub op_launch : BackendSession → ℕ → String → List ℕ → List ℕ → ℕ → List ℕ → Reply
op_launch s module_id function grid block shared_mem args =
    if ltb max_kernel_args (length args)
    then (refused ("too many kernel args (max " & show max_kernel_args & ")"), s)
    else if not (is_function_name function)
    then (refused "invalid function name", s)
    else (refused "LaunchKernel requires cuda-driver backend", s)
