-- ===== src/Transfer/Paths/Downloads.antt =====
-- The places that `resolve_download_path` of crates/gpumesh-core/src/remote.rs resolves to.
use gpu_share.Transfer.Paths.Safety.{no_slash-split, no_slash, is_name}
use gpu_share.Base.{
  all-retain, Bool-cases, codes, retain, any, is_empty, all, ℕ, String, Bool, true, false, Option,
  none, some, List, [], ◌∷◌, ◌++◌, inl, inr, ◌≡◌, refl, sym, arith, if◌then◌else◌, nat_eq,
  string_eq, ◌&&◌, ◌||◌, not,
}
use gpu_share.Common.{storage, ok, err, Result}
use gpu_share.Transfer.Paths.{
  split, is_outputs, download_parts, unsafe_download, bad_part, has_dots, has_colon, trim_slashes,
  map_slash, slash, is_safe_job_id, resolve_download_path, Name, Files,
}

all-retain_keeps {ℓ} :
    {A : Type ℓ} (p q : A → Bool) (xs : List A) → all q xs ≡ true → all q (retain p xs) ≡ true
all-retain_keeps p q [] h = refl
all-retain_keeps p q (x ∷ xs) h = elim (Bool-cases (p x)) [
  | inl y ↦ rw y (ground (arith, all-retain_keeps p q xs))
  | inr y ↦ rw y (all-retain_keeps p q xs (ground arith))
]

all-combine {ℓ} :
    {A : Type ℓ} (p q r s : A → Bool) (xs : List A)
    → ((x : A) → p x ≡ true → q x ≡ true → r x ≡ false → s x ≡ true)
    → all p xs ≡ true
    → all q xs ≡ true
    → any r xs ≡ false
    → all s xs ≡ true
all-combine p q r s [] h a b c = refl
all-combine p q r s (x ∷ xs) h a b c =
    let head : s x ≡ true = h x (ground arith) (ground arith) (ground arith) in
    let tail : all s xs ≡ true =
      all-combine p q r s xs h (ground arith) (ground arith) (ground arith) in
    ground (arith, head, tail)

-- An entry's name without the colon of a drive or stream.
abbrev pub is_plain_name : Name → Bool
is_plain_name p = is_name p && not (has_colon p)

part_lem :
    (p : Name)
    → not (is_empty p) ≡ true
    → no_slash p ≡ true
    → bad_part p ≡ false
    → is_plain_name p ≡ true
part_lem p a b c = ground arith

-- What a download may name: the outputs of one job, under an identifier of letters, digits, dashes
-- and underscores, or a file below the incoming directory, reached by plain names only.
pub data DownloadPlace (fs : Files) (full : List Name) : Type 0 where
  outputs :
      (id : Name)
      → is_safe_job_id id ≡ true
      → full ≡ fs.jobs_dir ++ id ∷ codes "outputs.gpk" ∷ []
      → DownloadPlace fs full
  incoming_file :
      (parts : List Name)
      → all is_plain_name parts ≡ true
      → full ≡ fs.incoming ++ parts
      → DownloadPlace fs full

ok_inj : (a b : List Name) → ok a ≡ ok b → a ≡ b
ok_inj a b e = cc

resolved_parts :
    (fs : Files) (path : String) (parts full : List Name) (o : Option Name)
    → all (λ p. not (is_empty p)) parts ≡ true
    → all no_slash parts ≡ true
    → (elim o as (λ _. Result (List Name)) [
      | some id ↦
          if is_safe_job_id id
          then ok (fs.jobs_dir ++ id ∷ codes "outputs.gpk" ∷ [])
          else err (storage "invalid job id")
      | none ↦ if any bad_part parts then err (unsafe_download path) else ok (fs.incoming ++ parts)
    ])
      ≡ ok full
    → DownloadPlace fs full
resolved_parts fs path parts full (some id) a b h = elim (Bool-cases (is_safe_job_id id)) [
  | inl y ↦ outputs id y (sym (ok_inj _ full (rw y at h)))
  | inr y ↦ absurd (ground (arith, rw y at h))
]
resolved_parts fs path parts full none a b h = elim (Bool-cases (any bad_part parts)) [
  | inl y ↦ absurd (ground (arith, rw y at h))
  | inr y ↦
      incoming_file parts
        (all-combine (λ p. not (is_empty p)) no_slash bad_part is_plain_name parts part_lem a b y)
        (sym (ok_inj _ full (rw y at h)))
]

-- A requested path that is resolved names one of the places of `DownloadPlace`.
pub resolve_download_path-DownloadPlace :
    (fs : Files) (path : String) (full : List Name)
    → resolve_download_path fs path ≡ ok full
    → DownloadPlace fs full
unfolding resolve_download_path
resolve_download_path-DownloadPlace fs path full h =
    let clean : List ℕ = map_slash (trim_slashes (codes path)) in
    elim (Bool-cases (is_empty clean || has_dots clean)) [
      | inl y ↦ absurd (ground (arith, rw y at h))
      | inr y ↦
          resolved_parts fs path (download_parts clean) full (is_outputs (download_parts clean))
            (all-retain (λ p. not (is_empty p)) (split slash clean))
            (all-retain_keeps (λ p. not (is_empty p)) no_slash (split slash clean)
              (no_slash-split clean))
            (rw y at h)
    ]
