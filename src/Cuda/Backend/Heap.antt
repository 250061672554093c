-- ===== src/Cuda/Backend/Heap.antt =====
-- The table of host buffers of crates/gpumesh-core/src/cuda_backend.rs: its total size and its
-- shape.
use mathlib.Core.Path.{subst}
use gpu_share.Base.{
  Bool-cases, ℕ, none, some, List, [], ◌∷◌, inl, inr, ◌≡◌, refl, arith, ◌==◌, nat_eq, string_eq,
  ◌+◌, ◌≤◌, ◌<◌, length,
}
use gpu_share.Base.Map
use gpu_share.Base.Map.{Map}
use gpu_share.Cuda.Backend.{max_single_alloc}

unfoldable pub total_size : Map ℕ (List ℕ) → ℕ
total_size [] = 0
total_size ((p, b) ∷ m) = length b + total_size m

-- Every pointer is below `n` and has one buffer, of at most the size that one allocation may have.
unfoldable pub IsHeap : ℕ → Map ℕ (List ℕ) → Type 0
IsHeap n [] = Unit
IsHeap n ((p, b) ∷ m) = (p < n) × (length b ≤ max_single_alloc) × (Map.get p m ≡ none) × IsHeap n m

pub IsHeap-mono : (n n' : ℕ) (m : Map ℕ (List ℕ)) → n ≤ n' → IsHeap n m → IsHeap n' m
unfolding IsHeap
IsHeap-mono n n' [] le h = tt
IsHeap-mono n n' ((p, b) ∷ m) le (h1, h2, h3, h4) = (omega arith, h2, h3, IsHeap-mono n n' m le h4)

-- A pointer at or above the bound is free.
pub get-fresh : (n p : ℕ) (m : Map ℕ (List ℕ)) → IsHeap n m → n ≤ p → Map.get p m ≡ none
unfolding IsHeap Map.get
get-fresh n p [] h le = refl
get-fresh n p ((q, b) ∷ m) (h1, h2, h3, h4) le = ground (arith, get-fresh n p m h4 le)

pub get-length_le :
    (n p : ℕ) (m : Map ℕ (List ℕ)) (b : List ℕ)
    → IsHeap n m
    → Map.get p m ≡ some b
    → (length b ≤ max_single_alloc) × (p < n)
unfolding IsHeap Map.get
get-length_le n p [] b h e = absurd (ground arith)
get-length_le n p ((q, c) ∷ m) b (h1, h2, h3, h4) e = elim (Bool-cases (q == p)) [
  | inl y ↦
      let same : c ≡ b = ground arith in
      let key : q ≡ p = (nat_eq.beq_iff q p).0 y in
      (subst (λ (x : List ℕ). length x ≤ max_single_alloc) same h2, omega arith)
  | inr y ↦ get-length_le n p m b h4 (ground arith)
]

pub IsHeap-insert :
    (n p : ℕ) (b : List ℕ) (m : Map ℕ (List ℕ))
    → p < n
    → length b ≤ max_single_alloc
    → IsHeap n m
    → IsHeap n (Map.insert p b m)
unfolding IsHeap Map.insert Map.get
IsHeap-insert n p b [] lt le h = (lt, le, refl, tt)
IsHeap-insert n p b ((q, c) ∷ m) lt le (h1, h2, h3, h4) = elim (Bool-cases (q == p)) [
  | inl y ↦
      let key : q ≡ p = (nat_eq.beq_iff q p).0 y in
      rw y (lt, le, subst (λ (x : ℕ). Map.get x m ≡ none) key h3, h4)
  | inr y ↦
      let absent : Map.get q (Map.insert p b m) ≡ none =
        ground (arith, Map.get-insert p q b m, h3, nat_eq.beq_iff p q, nat_eq.beq_iff q p) in
      rw y (h1, h2, absent, IsHeap-insert n p b m lt le h4)
]

pub IsHeap-remove : (n p : ℕ) (m : Map ℕ (List ℕ)) → IsHeap n m → IsHeap n (Map.remove p m)
unfolding IsHeap Map.remove Map.get
IsHeap-remove n p [] h = tt
IsHeap-remove n p ((q, c) ∷ m) (h1, h2, h3, h4) = elim (Bool-cases (q == p)) [
  | inl y ↦ rw y (IsHeap-remove n p m h4)
  | inr y ↦
      let absent : Map.get q (Map.remove p m) ≡ none = ground (arith, Map.get-remove p q m, h3) in
      rw y (h1, h2, absent, IsHeap-remove n p m h4)
]

pub remove_absent : (p : ℕ) (m : Map ℕ (List ℕ)) → Map.get p m ≡ none → Map.remove p m ≡ m
unfolding Map.remove Map.get
remove_absent p [] h = refl
remove_absent p ((q, c) ∷ m) h = ground (arith, remove_absent p m)

pub total_size-insert_absent :
    (p : ℕ) (b : List ℕ) (m : Map ℕ (List ℕ))
    → Map.get p m ≡ none
    → total_size (Map.insert p b m) ≡ total_size m + length b
unfolding total_size Map.insert Map.get
total_size-insert_absent p b [] h = omega arith
total_size-insert_absent p b ((q, c) ∷ m) h = ground (arith, total_size-insert_absent p b m)

pub total_size-insert :
    (p : ℕ) (b c : List ℕ) (m : Map ℕ (List ℕ))
    → Map.get p m ≡ some c
    → total_size (Map.insert p b m) + length c ≡ total_size m + length b
unfolding total_size Map.insert Map.get
total_size-insert p b c [] h = absurd (ground arith)
total_size-insert p b c ((q, d) ∷ m) h = elim (Bool-cases (q == p)) [
  | inl y ↦ let same : length d ≡ length c = ground arith in rw y (omega arith)
  | inr y ↦
      let rest : total_size (Map.insert p b m) + length c ≡ total_size m + length b =
        total_size-insert p b c m (ground arith) in
      rw y (omega arith)
]

pub total_size-remove :
    (n p : ℕ) (c : List ℕ) (m : Map ℕ (List ℕ))
    → IsHeap n m
    → Map.get p m ≡ some c
    → total_size (Map.remove p m) + length c ≡ total_size m
unfolding total_size Map.remove Map.get IsHeap
total_size-remove n p c [] hh h = absurd (ground arith)
total_size-remove n p c ((q, d) ∷ m) (h1, h2, h3, h4) h = elim (Bool-cases (q == p)) [
  | inl y ↦
      let same : length d ≡ length c = ground arith in
      let key : q ≡ p = (nat_eq.beq_iff q p).0 y in
      let kept : Map.remove p m ≡ m =
        remove_absent p m (subst (λ (x : ℕ). Map.get x m ≡ none) key h3) in
      rw (y, kept) (omega arith)
  | inr y ↦
      let rest : total_size (Map.remove p m) + length c ≡ total_size m =
        total_size-remove n p c m h4 (ground arith) in
      rw y (omega arith)
]
