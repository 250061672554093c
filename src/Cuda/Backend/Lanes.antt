-- ===== src/Cuda/Backend/Lanes.antt =====
-- The vector addition of crates/gpumesh-core/src/cuda_backend.rs, lane by lane.
use gpu_share.Cuda.Backend.Memory.{written-write_buf}
use mathlib.Core.Path.{subst}
use gpu_share.Cuda.Backend.Kernels.{with_buf, sum_lanes, op_vector_add, check_lens}
use gpu_share.Base.{
  length-drop, length-append, take-append_self, drop-append_self, ◌∙◌, leb, drop, take, ℕ, zero,
  suc, true, none, some, List, [], ◌∷◌, ◌++◌, ◌≡◌, refl, ap, arith, ◌==◌, nat_eq, string_eq, ◌*◌,
  ◌≤◌, ◌<◌, length,
}
use gpu_share.Base.Map
use gpu_share.Base.Map.{Map}
use gpu_share.Cuda.Backend.{Reply, no_partial, done, buf_len, read_buf, F32, BackendSession}

-- The four bytes of lane `i`.
abbrev pub lane : ℕ → List ℕ → List ℕ
lane zero bytes = take 4 bytes
lane (suc i) bytes = lane i (drop 4 bytes)

module _ (fl : F32) where
  abbrev sum_head : List ℕ → List ℕ → List ℕ
  sum_head ab bb = fl.add (take 4 ab) (take 4 bb)

  take_head : (ab bb rest : List ℕ) → take 4 (sum_head ab bb ++ rest) ≡ sum_head ab bb
  take_head ab bb rest =
      subst (λ (k : ℕ). take k (sum_head ab bb ++ rest) ≡ sum_head ab bb)
        (fl.length-add (take 4 ab) (take 4 bb)) (take-append_self (sum_head ab bb) rest)

  drop_head : (ab bb rest : List ℕ) → drop 4 (sum_head ab bb ++ rest) ≡ rest
  drop_head ab bb rest =
      subst (λ (k : ℕ). drop k (sum_head ab bb ++ rest) ≡ rest)
        (fl.length-add (take 4 ab) (take 4 bb)) (drop-append_self (sum_head ab bb) rest)

  -- A lane below `n` holds the sum.
  lane-sum_lanes :
      (n i : ℕ) (ab bb ob : List ℕ)
      → i < n
      → lane i (sum_lanes fl n ab bb ob) ≡ fl.add (lane i ab) (lane i bb)
  unfolding sum_lanes
  lane-sum_lanes zero i ab bb ob lt = absurd (omega arith)
  lane-sum_lanes (suc n) zero ab bb ob lt =
      take_head ab bb (sum_lanes fl n (drop 4 ab) (drop 4 bb) (drop 4 ob))
  lane-sum_lanes (suc n) (suc i) ab bb ob lt =
      ap (lane i) (drop_head ab bb (sum_lanes fl n (drop 4 ab) (drop 4 bb) (drop 4 ob)))
      ∙ lane-sum_lanes n i (drop 4 ab) (drop 4 bb) (drop 4 ob) (omega arith)

  -- A lane from `n` on holds what the output held.
  lane-sum_lanes_rest :
      (n i : ℕ) (ab bb ob : List ℕ) → n ≤ i → lane i (sum_lanes fl n ab bb ob) ≡ lane i ob
  unfolding sum_lanes
  lane-sum_lanes_rest zero i ab bb ob le = refl
  lane-sum_lanes_rest (suc n) zero ab bb ob le = absurd (omega arith)
  lane-sum_lanes_rest (suc n) (suc i) ab bb ob le =
      ap (lane i) (drop_head ab bb (sum_lanes fl n (drop 4 ab) (drop 4 bb) (drop 4 ob)))
      ∙ lane-sum_lanes_rest n i (drop 4 ab) (drop 4 bb) (drop 4 ob) (omega arith)

  length-sum_lanes :
      (n : ℕ) (ab bb ob : List ℕ) → n * 4 ≤ length ob → length (sum_lanes fl n ab bb ob) ≡ length ob
  unfolding sum_lanes
  length-sum_lanes zero ab bb ob le = refl
  length-sum_lanes (suc n) ab bb ob le = omega (
    arith,
    length-append (sum_head ab bb) (sum_lanes fl n (drop 4 ab) (drop 4 bb) (drop 4 ob)),
    fl.length-add (take 4 ab) (take 4 bb),
    length-drop 4 ob,
    length-sum_lanes n (drop 4 ab) (drop 4 bb) (drop 4 ob),
  )

-- What the output buffer must hold: the sums in the first `n` lanes, and what it held elsewhere.
pub record IsSum (fl : F32) (n : ℕ) (ab bb ob new : List ℕ) : Type 0 where
  pub same_length : length new ≡ length ob
  pub sums : (i : ℕ) → i < n → lane i new ≡ fl.add (lane i ab) (lane i bb)
  pub others : (i : ℕ) → n ≤ i → lane i new ≡ lane i ob

check_lens-eq-none :
    (s : BackendSession) (a b out n : ℕ) (ab bb ob : List ℕ)
    → read_buf s a ≡ some ab
    → read_buf s b ≡ some bb
    → read_buf s out ≡ some ob
    → n ≤ length ab
    → n ≤ length bb
    → n ≤ length ob
    → check_lens s n (a ∷ b ∷ out ∷ []) ≡ none
unfolding check_lens buf_len read_buf
check_lens-eq-none s a b out n ab bb ob fa fb fo la lb lo =
    let ta : leb n (length ab) ≡ true = ground arith in
    let tb : leb n (length bb) ≡ true = ground arith in
    let to : leb n (length ob) ≡ true = ground arith in
    rw (fa, fb, fo, ta, tb, to, check_lens, buf_len) refl

with_buf_lem :
    (s : BackendSession) (p : ℕ) (f : List ℕ → Reply) (b : List ℕ)
    → Map.get p s.host_buffers ≡ some b
    → with_buf s p f ≡ f b
with_buf_lem s p f b h = rw (h, with_buf) refl

-- Over three buffers that hold `n` lanes, which may be one buffer or several, the addition is
-- accepted; the output then holds the sums of the two inputs as they were before, and nothing else
-- of it changes.
pub op_vector_add_lem :
    (fl : F32) (s : BackendSession) (a b out n : ℕ) (ab bb ob : List ℕ)
    → read_buf s a ≡ some ab
    → read_buf s b ≡ some bb
    → read_buf s out ≡ some ob
    → n * 4 ≤ length ab
    → n * 4 ≤ length bb
    → n * 4 ≤ length ob
    → ((op_vector_add fl s a b out n).0 ≡ done no_partial)
      × ((new : List ℕ) × ((read_buf (op_vector_add fl s a b out n).1 out ≡ some new)
            × IsSum fl n ab bb ob new))
unfolding read_buf op_vector_add
op_vector_add_lem fl s a b out n ab bb ob fa fb fo la lb lo =
    let new : List ℕ = sum_lanes fl n ab bb ob in
    let size : length new ≡ length ob = length-sum_lanes fl n ab bb ob lo in
    let same : (length new == length ob) ≡ true =
      (nat_eq.beq_iff (length new) (length ob)).1 size in
    let t : BackendSession = record s { host_buffers = Map.insert out new s.host_buffers } in
    let good : check_lens s (n * 4) (a ∷ b ∷ out ∷ []) ≡ none =
      check_lens-eq-none s a b out (n * 4) ab bb ob fa fb fo la lb lo in
    let ga : Map.get a s.host_buffers ≡ some ab = fa in
    let gb : Map.get b s.host_buffers ≡ some bb = fb in
    let go : Map.get out s.host_buffers ≡ some ob = fo in
    let step : op_vector_add fl s a b out n ≡ (done no_partial, t) =
      rw (good, op_vector_add)
        (with_buf_lem s a _ ab ga
          ∙ with_buf_lem s b _ bb gb
          ∙ with_buf_lem s out _ ob go
          ∙ written-write_buf s out new ob fo same) in
    (
      ap (λ (r : Reply). r.0) step,
      (
        new,
        (
          ap (λ (r : Reply). Map.get out r.1.host_buffers) step
              ∙ Map.get-insert_self out new s.host_buffers,
          record {
            same_length = size;
            sums = λ i lt. lane-sum_lanes fl n i ab bb ob lt;
            others = λ i le. lane-sum_lanes_rest fl n i ab bb ob le;
          },
        ),
      ),
    )
