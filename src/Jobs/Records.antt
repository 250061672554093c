-- ===== src/Jobs/Records.antt =====
-- `JobRecord` of crates/gpumesh-storage/src/jobs.rs: the records of jobs in their directories. A time
-- is kept as its seconds.
use gpu_share.Base.Int.{ltb_ℤ, ℤ}
use mathlib.Core.Option
use gpu_share.Base.{
  find, unwrap_or, ℕ, String, false, Option, none, some, List, [], ◌∷◌, ◌++◌, if◌then◌else◌, ◌==◌,
  nat_eq, string_eq, ◌&◌,
}
use gpu_share.Common.{pending, io, JobState, GpuMeshError, ok, err, Result}
use gpu_share.Base.Map.{get, insert, Map}

pub record JobRecord : Type 0 where
  pub job_id : String
  pub peer : Option String
  pub image : String
  pub command : List String
  pub state : JobState
  pub exit_code : Option ℤ
  pub error : Option String
  pub created_at : ℤ
  pub finished_at : Option ℤ
  pub attempts : ℕ
  pub log_path : Option String

-- A job's directory: the record in it as reading and parsing it answers, and the log.
pub record JobDir : Type 0 where
  pub meta : Option (Result JobRecord)
  pub log : Option String

-- The jobs directory, with its entries in the order in which it is read.
abbrev pub JobDirs : Type 0
JobDirs = Map String JobDir

unfoldable pub new_record : ℤ → String → Option String → String → List String → JobRecord
new_record now job_id peer image command = record {
  job_id = job_id;
  peer = peer;
  image = image;
  command = command;
  state = pending;
  exit_code = none;
  error = none;
  created_at = now;
  finished_at = none;
  attempts = 1;
  log_path = none;
}

abbrev pub no_dir : JobDir
no_dir = record { meta = none; log = none }

-- `create_dir_all` of the job's directory leaves what is in it.
abbrev pub job_dir : String → JobDirs → JobDir
job_dir id dirs = unwrap_or (get id dirs) no_dir

abbrev not_found : GpuMeshError
not_found = io "No such file or directory (os error 2)"

-- `written` is how writing the file goes.
unfoldable pub save : Result (Unit {0}) → JobRecord → JobDirs → JobDirs × Result (Unit {0})
save (err e) rec dirs = (insert rec.job_id (job_dir rec.job_id dirs) dirs, err e)
save (ok _) rec dirs =
    (insert rec.job_id (record (job_dir rec.job_id dirs) { meta = some (ok rec) }) dirs, ok tt)

unfoldable pub load_record : String → JobDirs → Result JobRecord
load_record id dirs = unwrap_or (job_dir id dirs).meta (err not_found)

abbrev loaded : JobDir → List JobRecord
loaded d = elim d.meta [ none ↦ [] | some (err e) ↦ [] | some (ok rec) ↦ rec ∷ [] ]

-- The records that can be loaded, in the order of the directory.
unfoldable pub loadable : JobDirs → List JobRecord
loadable [] = []
loadable ((id, d) ∷ dirs) = loaded d ++ loadable dirs

-- `sort_by(|a, b| b.created_at.cmp(&a.created_at))`, which is stable.
unfoldable pub insert_newest : JobRecord → List JobRecord → List JobRecord
insert_newest r [] = r ∷ []
insert_newest r (s ∷ rs) =
    let rest = insert_newest r rs in
    if ltb_ℤ r.created_at s.created_at then s ∷ rest else r ∷ s ∷ rs

unfoldable pub newest_first : List JobRecord → List JobRecord
unfolding insert_newest
newest_first [] = []
newest_first (r ∷ rs) = insert_newest r (newest_first rs)

unfoldable pub list_records : JobDirs → List JobRecord
unfolding newest_first loadable
list_records dirs = newest_first (loadable dirs)

unfoldable pub append_log :
    Result (Unit {0}) → String → String → JobDirs → JobDirs × Result (Unit {0})
append_log (err e) id line dirs = (insert id (job_dir id dirs) dirs, err e)
append_log (ok _) id line dirs = (
  insert id
      (record (job_dir id dirs) { log = some (unwrap_or (job_dir id dirs).log "" & (line & "\n")) })
      dirs,
  ok tt,
)

unfoldable pub read_log : String → JobDirs → String
read_log id dirs = unwrap_or (job_dir id dirs).log ""

-- `latest_job_for_peer` of crates/gpumesh-cli/src/app.rs.
unfoldable pub latest_job_for_peer : String → JobDirs → Option String
unfolding list_records
latest_job_for_peer peer dirs =
    Option.map (λ (r : JobRecord). r.job_id)
      (find (λ r. unwrap_or (Option.map (λ (p : String). p == peer) r.peer) false)
        (list_records dirs))
