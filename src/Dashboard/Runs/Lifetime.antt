-- ===== src/Dashboard/Runs/Lifetime.antt =====
-- What a job that the local server of crates/gpumesh-control/src/local.rs runs leaves behind.
use gpu_share.Jobs.Records.{save}
use gpu_share.Dashboard.{Local}
use gpu_share.Dashboard.Runs.{Task}
use gpu_share.Base.{String, ◌≡◌, nat_eq, string_eq}
use gpu_share.Common.{pending, ok}
use gpu_share.Base.Set

-- What starting did, where it is answered.
record IsStarted (job_id : String) (local local' : Local) (task : Task) : Type 0 where
  id : task.rec.job_id ≡ job_id
  state : task.rec.state ≡ pending
  dirs : local'.dirs ≡ (save (ok tt) task.rec local.dirs).0
  running : local'.running ≡ Set.insert job_id local.running
