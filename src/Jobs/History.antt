-- ===== src/Jobs/History.antt =====
-- What the records of crates/gpumesh-storage/src/jobs.rs keep, and how they are listed.
use gpu_share.Base.Map.{insert, get, get-insert}
use gpu_share.Base.Int.{ltb_ℤ, leb_ℤ}
use gpu_share.Jobs.Records.{
  append_log, no_dir, JobDir, job_dir, loadable, read_log, JobDirs, save, load_record, JobRecord,
  list_records, newest_first, insert_newest,
}
use mathlib.Core.List.{Perm}
use mathlib.Core.List.Perm
use gpu_share.Base.{
  ◌∙◌, unwrap_or, str_iff, Bool-cases, all, String, Bool, true, Option, some, List, [], ◌∷◌, inl,
  inr, ◌≡◌, refl, ap, arith, if◌then◌else◌, ◌==◌, nat_eq, string_eq,
}
use gpu_share.Common.{io, ok, err, Result}

-- A record that is saved is the one that is loaded, the log of the job stays, and so does
-- everything of every other job.
pub load_record-save :
    (rec : JobRecord) (dirs : JobDirs) (id : String)
    → (load_record id (save (ok tt) rec dirs).0
        ≡ (if rec.job_id == id then ok rec else load_record id dirs))
      × (read_log id (save (ok tt) rec dirs).0 ≡ read_log id dirs)
unfolding load_record save read_log
load_record-save rec dirs id = elim (Bool-cases (rec.job_id == id)) [
  | inl y ↦
      let now : get id (insert rec.job_id dir dirs) ≡ some dir = there ∙ ap chosen y in
      (
        rw y (ap meta_of now),
        ap log_of now ∙ ap (λ (k : String). log_of (get k dirs)) ((str_iff rec.job_id id).0 y),
      )
  | inr n ↦
      let now : get id (insert rec.job_id dir dirs) ≡ get id dirs = there ∙ ap chosen n in
      (rw n (ap meta_of now), ap log_of now)
]
  where
    dir : JobDir
    dir = record (job_dir rec.job_id dirs) { meta = some (ok rec) }

    chosen : Bool → Option JobDir
    chosen b = if b then some dir else get id dirs

    there : get id (insert rec.job_id dir dirs) ≡ chosen (rec.job_id == id)
    there = get-insert rec.job_id id dir dirs

    meta_of : Option JobDir → Result JobRecord
    meta_of o =
        unwrap_or (unwrap_or o no_dir).meta (err (io "No such file or directory (os error 2)"))

    log_of : Option JobDir → String
    log_of o = unwrap_or (unwrap_or o no_dir).log ""

-- Adding a line to a log leaves every record.
pub load_record-append_log :
    (written : Result (Unit {0})) (job_id line id : String) (dirs : JobDirs)
    → load_record id (append_log written job_id line dirs).0 ≡ load_record id dirs
unfolding load_record append_log
load_record-append_log written job_id line id dirs = go written
  where
    meta_of : JobDir → Result JobRecord
    meta_of d = unwrap_or d.meta (err (io "No such file or directory (os error 2)"))

    kept :
        (d : JobDir)
        → meta_of d ≡ meta_of (job_dir job_id dirs)
        → meta_of (job_dir id (insert job_id d dirs)) ≡ meta_of (job_dir id dirs)
    kept d e = elim (Bool-cases (job_id == id)) [
      | inl y ↦
          ap (λ (o : Option JobDir). meta_of (unwrap_or o no_dir))
            (get-insert job_id id d dirs ∙ ap (λ (b : Bool). if b then some d else get id dirs) y)
          ∙ e
          ∙ ap (λ (k : String). meta_of (job_dir k dirs)) ((str_iff job_id id).0 y)
      | inr n ↦
          ap (λ (o : Option JobDir). meta_of (unwrap_or o no_dir))
            (get-insert job_id id d dirs ∙ ap (λ (b : Bool). if b then some d else get id dirs) n)
    ]

    go :
        (w : Result (Unit {0}))
        → load_record id (append_log w job_id line dirs).0 ≡ load_record id dirs
    go (err e) = kept (job_dir job_id dirs) refl
    go (ok u) = kept _ refl

-- No record is listed before one that is newer.
abbrev pub is_before : JobRecord → JobRecord → Bool
is_before a b = leb_ℤ b.created_at a.created_at

abbrev pub AreNewestFirst : List JobRecord → Type 0
AreNewestFirst [] = Unit
AreNewestFirst (r ∷ rs) = (all (is_before r) rs ≡ true) × AreNewestFirst rs

is_before_trans :
    (a b c : JobRecord) → is_before a b ≡ true → is_before b c ≡ true → is_before a c ≡ true
unfolding leb_ℤ
is_before_trans a b c h k = ground arith

all_before :
    (a b : JobRecord) (rs : List JobRecord)
    → is_before a b ≡ true
    → all (is_before b) rs ≡ true
    → all (is_before a) rs ≡ true
all_before a b [] h k = refl
all_before a b (c ∷ rs) h k =
    let first : is_before b c ≡ true = ground arith in
    let rest : all (is_before b) rs ≡ true = ground arith in
    ground (arith, is_before_trans a b c h first, all_before a b rs h rest)

insert_newest-all :
    (a r : JobRecord) (rs : List JobRecord)
    → is_before a r ≡ true
    → all (is_before a) rs ≡ true
    → all (is_before a) (insert_newest r rs) ≡ true
unfolding insert_newest
insert_newest-all a r [] h k = ground arith
insert_newest-all a r (s ∷ rs) h k = elim (Bool-cases (ltb_ℤ r.created_at s.created_at)) [
  | inl y ↦ rw (y, insert_newest) (ground (arith, insert_newest-all a r rs h (ground arith)))
  | inr n ↦ rw (n, insert_newest) (ground arith)
]

insert_newest-AreNewestFirst :
    (r : JobRecord) (rs : List JobRecord) → AreNewestFirst rs → AreNewestFirst (insert_newest r rs)
unfolding insert_newest ltb_ℤ leb_ℤ
insert_newest-AreNewestFirst r [] w = (refl, tt)
insert_newest-AreNewestFirst r (s ∷ rs) w = elim (Bool-cases (ltb_ℤ r.created_at s.created_at)) [
  | inl y ↦
      let older : is_before s r ≡ true = ground arith in
      rw (y, insert_newest)
        (insert_newest-all s r rs older w.0, insert_newest-AreNewestFirst r rs w.1)
  | inr n ↦
      let newer : is_before r s ≡ true = ground arith in
      rw (n, insert_newest) (ground (arith, newer, all_before r s rs newer w.0), w)
]

newest_first-AreNewestFirst : (rs : List JobRecord) → AreNewestFirst (newest_first rs)
unfolding newest_first
newest_first-AreNewestFirst [] = tt
newest_first-AreNewestFirst (r ∷ rs) =
    insert_newest-AreNewestFirst r (newest_first rs) (newest_first-AreNewestFirst rs)

insert_newest-perm : (r : JobRecord) (rs : List JobRecord) → Perm (insert_newest r rs) (r ∷ rs)
unfolding insert_newest
insert_newest-perm r [] = Perm.refl (r ∷ [])
insert_newest-perm r (s ∷ rs) = elim (Bool-cases (ltb_ℤ r.created_at s.created_at)) [
  | inl y ↦
      rw (y, insert_newest) (Perm.trans (Perm.cons s (insert_newest-perm r rs)) (Perm.swap r s rs))
  | inr n ↦ rw (n, insert_newest) (Perm.refl (r ∷ s ∷ rs))
]

newest_first-perm : (rs : List JobRecord) → Perm (newest_first rs) rs
unfolding newest_first
newest_first-perm [] = Perm.refl []
newest_first-perm (r ∷ rs) =
    Perm.trans (insert_newest-perm r (newest_first rs)) (Perm.cons r (newest_first-perm rs))

-- The records that are listed are those of the directory that can be loaded, each as often, and no
-- record comes before one that is newer.
pub list_records_lem :
    (dirs : JobDirs) → Perm (list_records dirs) (loadable dirs) × AreNewestFirst (list_records dirs)
unfolding list_records
list_records_lem dirs =
    (newest_first-perm (loadable dirs), newest_first-AreNewestFirst (loadable dirs))
