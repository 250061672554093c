-- ===== src/Dashboard/Runs.antt =====
-- Jobs that the local server of crates/gpumesh-control/src/local.rs starts: `run_job`, the task that
-- it leaves, and the lists of jobs.
pub mod Lifetime
use gpu_share.Jobs.Container.{is_zero}
use gpu_share.Base.Int.{ℤ}
use gpu_share.Node.{Env}
use gpu_share.Dashboard.{refusal, map_err, Response, answer, Local}
use gpu_share.Jobs.Records.{
  JobDirs, append_log, new_record, load_record, save, list_records, JobRecord,
}
use gpu_share.Base.{
  unwrap_or, is_empty, take, trim, ℕ, zero, suc, String, Bool, true, false, Option, none, some,
  List, [], ◌∷◌, ◌++◌, inl, inr, ◌≡◌, ◌≢◌, refl, ap, sym, arith, if◌then◌else◌, ◌==◌, nat_eq,
  string_eq, ◌+◌, ◌-◌, ◌*◌, ◌≤◌, ◌<◌, min, max, ◌&&◌, ◌||◌, not, ◌&◌, ◌⊎◌, ◌↔◌, length,
}
use gpu_share.Common.{
  default_image, failed, display, succeeded, pending, ok, err, ◌>>=◌, ◌>>◌, Result,
}
use gpu_share.Base.Set

pub record RunBody : Type 0 where
  pub peer : String
  pub image : Option String
  pub command : List String
  pub workdir : Option String
  pub gpu_memory : Option String

abbrev pub is_blank : String → Bool
is_blank s = trim s == ""

-- What the task is given to run. `workdir` is none for the empty directory of the dashboard.
pub record Task : Type 0 where
  pub rec : JobRecord
  pub image : String
  pub gpu_memory_mb : Option ℕ
  pub workdir : Option String

abbrev pub filled : Option String → Option String
filled none = none
filled (some s) = if is_blank s then none else some s

abbrev pub memory_of : Env → Option String → Result (Option ℕ)
memory_of env none = ok none
memory_of env (some s) = env.parse_size_to_mb s >>= λ mb. ok (some mb)

abbrev pub start_task : Result (Unit {0}) → Task → Local → Local × Response Task
start_task written task local =
    let (dirs, r) = save written task.rec local.dirs in
    elim r [
      | err e ↦ (record local { dirs = dirs }, map_err e)
      | ok _ ↦ (
        record local { dirs = dirs; running = Set.insert task.rec.job_id local.running },
        answer task,
      )
    ]

-- `run_job`, up to the task. `job_id` is the new identifier, `written` how saving the record goes.
unfoldable pub run_job : Env → Result (Unit {0}) → String → RunBody → Local → Local × Response Task
unfolding save new_record
run_job env written job_id body local =
    if is_blank body.peer
    then (local, refusal 400 "peer is required")
    else if is_empty body.command
    then (local, refusal 400 "command is required")
    else let image = unwrap_or (filled body.image) default_image in
      elim (memory_of env (filled body.gpu_memory)) [
        | err e ↦ (local, map_err e)
        | ok memory ↦
            start_task written
              (record {
                rec = new_record env.now job_id (some body.peer) image body.command;
                image = image;
                gpu_memory_mb = memory;
                workdir = filled body.workdir;
              })
              local
      ]

-- The record after the outcome of the remote run.
unfoldable pub finished : ℤ → Result ℤ → JobRecord → JobRecord
finished now (ok code) rec = record rec {
  state = if is_zero code then succeeded else failed;
  exit_code = some code;
  finished_at = some now;
}
finished now (err e) rec = record rec {
  state = failed;
  error = some (display e);
  finished_at = some now;
}

abbrev pub resave : ℤ → Result (Unit {0}) → Result ℤ → String → JobDirs → JobDirs
resave now written outcome job_id dirs = elim (load_record job_id dirs) [
  | err e ↦ dirs
  | ok rec ↦ (save written (finished now outcome rec) dirs).0
]

abbrev pub log_error : Result (Unit {0}) → Result ℤ → String → JobDirs → JobDirs
log_error logged (ok code) job_id dirs = dirs
log_error logged (err e) job_id dirs = (append_log logged job_id ("[system] " & display e) dirs).0

-- The end of the task. Failures of its own writes are not looked at.
unfoldable pub finish_job :
    ℤ → Result (Unit {0}) → Result (Unit {0}) → Result ℤ → String → Local → Local
unfolding finished save append_log load_record display
finish_job now written logged outcome job_id local = record local {
  dirs = log_error logged outcome job_id (resave now written outcome job_id local.dirs);
  running = Set.remove job_id local.running;
}

-- `jobs`: at most eighty of the newest.
unfoldable pub jobs : JobDirs → List JobRecord
unfolding list_records
jobs dirs = take 80 (list_records dirs)

-- `job_one`, which takes the identifier as it stands in the request.
unfoldable pub job_one : String → Local → Response JobRecord
unfolding load_record
job_one id local = elim (load_record id local.dirs) [ err e ↦ map_err e | ok rec ↦ answer rec ]
