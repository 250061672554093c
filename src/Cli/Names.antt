-- ===== src/Cli/Names.antt =====
-- The names that `sanitize_name` of crates/gpumesh-cli/src/app.rs makes, and what they may name at a
-- provider.
use gpu_share.Cli.{
  project, sanitize_name, keep_unless_underscore, trim_start_underscores, name_char,
  trim_end_underscores,
}
use gpu_share.Transfer.Paths.{is_safe_job_id}
use gpu_share.Base.{
  length-take, leb, take, Bool-cases, map, is_empty, all, is_ascii_alphanumeric, ℕ, zero, suc, Bool,
  true, List, [], ◌∷◌, inl, inr, ◌≡◌, refl, arith, if◌then◌else◌, ◌==◌, nat_eq, string_eq, ◌≤◌,
  ◌||◌, length,
}

abbrev pub is_name_char : ℕ → Bool
is_name_char c = is_ascii_alphanumeric c || c == b'-' || c == b'_'

name_char-is_name_char : (c : ℕ) → is_name_char (name_char c) ≡ true
name_char-is_name_char c = ground arith

map-name_char-all : (s : List ℕ) → all is_name_char (map name_char s) ≡ true
map-name_char-all [] = refl
map-name_char-all (c ∷ s) = ground (arith, name_char-is_name_char c, map-name_char-all s)

trim_start_underscores-all :
    (s : List ℕ) → all is_name_char s ≡ true → all is_name_char (trim_start_underscores s) ≡ true
unfolding trim_start_underscores
trim_start_underscores-all [] h = refl
trim_start_underscores-all (c ∷ s) h =
    let rest : all is_name_char s ≡ true = ground arith in
    elim (Bool-cases (c == b'_')) [
      | inl y ↦ rw (y, trim_start_underscores) (trim_start_underscores-all s rest)
      | inr n ↦ rw (n, trim_start_underscores) h
    ]

keep_unless_underscore-all :
    (c : ℕ) (s : List ℕ)
    → is_name_char c ≡ true
    → all is_name_char s ≡ true
    → all is_name_char (keep_unless_underscore c s) ≡ true
keep_unless_underscore-all c [] h k = elim (Bool-cases (c == b'_')) [
  | inl y ↦ rw y refl
  | inr n ↦ rw (n, h) refl
]
keep_unless_underscore-all c (d ∷ s) h k = rw (h, k) refl

trim_end_underscores-all :
    (s : List ℕ) → all is_name_char s ≡ true → all is_name_char (trim_end_underscores s) ≡ true
unfolding trim_end_underscores
trim_end_underscores-all [] h = refl
trim_end_underscores-all (c ∷ s) h =
    let first : is_name_char c ≡ true = ground arith in
    let rest : all is_name_char s ≡ true = ground arith in
    keep_unless_underscore-all c (trim_end_underscores s) first (trim_end_underscores-all s rest)

all-take : (p : ℕ → Bool) (n : ℕ) (s : List ℕ) → all p s ≡ true → all p (take n s) ≡ true
all-take p zero s h = refl
all-take p (suc n) [] h = refl
all-take p (suc n) (c ∷ s) h =
    let rest : all p s ≡ true = ground arith in ground (arith, all-take p n s rest)

take-is_safe_job_id :
    (n c : ℕ) (s : List ℕ)
    → n ≤ 63
    → all is_name_char (c ∷ s) ≡ true
    → is_safe_job_id (c ∷ take n s) ≡ true
unfolding is_safe_job_id
take-is_safe_job_id n c s small h =
    let both : all is_name_char (c ∷ take n s) ≡ true = all-take is_name_char (suc n) (c ∷ s) h in
    let short : leb (suc (length (take n s))) 64 ≡ true = ground (arith, length-take n s) in
    rw short both

-- Every name that a project gets, from its directory or from the user, passes the check of
-- identifiers at a provider: it is not empty, has at most 64 characters, and consists of letters,
-- digits, dashes and underscores.
pub sanitize_name-is_safe_job_id : (raw : List ℕ) → is_safe_job_id (sanitize_name raw) ≡ true
unfolding sanitize_name
sanitize_name-is_safe_job_id raw = go trimmed (
    trim_end_underscores-all (trim_start_underscores (map name_char raw))
      (trim_start_underscores-all (map name_char raw) (map-name_char-all raw)))
  where
    trimmed : List ℕ
    trimmed = trim_end_underscores (trim_start_underscores (map name_char raw))

    go :
        (s : List ℕ)
        → all is_name_char s ≡ true
        → is_safe_job_id (if is_empty s then project else take 64 s) ≡ true
    go [] h = unfold is_safe_job_id in refl
    go (c ∷ s) h = take-is_safe_job_id 63 c s (omega arith) h
