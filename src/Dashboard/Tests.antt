-- ===== src/Dashboard/Tests.antt =====
-- Runs of a job that the local server starts, and of a reader of its log.
use gpu_share.Base.Set
use gpu_share.Common.{default_image, ok}
use gpu_share.Node.Toy.{env}
use gpu_share.Node.{missing}
use gpu_share.Jobs.Records.{new_record}
use gpu_share.Dashboard.{Local}
use gpu_share.Dashboard.Runs.{run_job, Task, RunBody}
use gpu_share.Base.{refl, some, none, [], ◌∷◌, ◌≡◌, nat_eq, string_eq}
use gpu_share.Dashboard.Logs.{chunk_start, read_log_chunk}

abbrev idle : Local
idle = record {
  saved = record { identity = missing; config = missing; allowlist = missing; peers = missing };
  dirs = [];
  running = [];
}

abbrev body : RunBody
body = record {
  peer = "alice";
  command = "true" ∷ [];
  image = none;
  gpu_memory = none;
  workdir = none;
}

abbrev task : Task
task = record {
  rec = new_record env.now "j1" (some "alice") default_image ("true" ∷ []);
  image = default_image;
  gpu_memory_mb = none;
  workdir = none;
}

abbrev busy : Local
busy = (run_job env (ok tt) "j1" body idle).0

-- A reader that has one byte of three gets the other two.
rest_read : (read_log_chunk "job.log" (1 ∷ 2 ∷ 3 ∷ []) (some 1)).text ≡ 2 ∷ 3 ∷ []
unfolding read_log_chunk chunk_start
rest_read = refl
