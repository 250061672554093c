-- ===== src/Jobs/Execution.antt =====
-- `execute_remote_job` of crates/gpumesh-core/src/remote.rs: what the provider of a job sends.
use gpu_share.Node.Greeting.{gpu_field}
use gpu_share.Protocol.{job_status, job_log, job_accepted, Message, RunJobRequest}
use gpu_share.Jobs.Container.{JobRequest, JobResult, LogEvent}
use gpu_share.Cuda.Gpu.{GpuInfo}
use mathlib.Core.Option
use gpu_share.Base.{
  String, Bool, Option, none, List, [], ◌∷◌, if◌then◌else◌, ◌==◌, nat_eq, string_eq,
}
use gpu_share.Common.{running, default_image, ShareLimits, ok, err, Result}

abbrev plain_status : JobResult → Message
plain_status r = job_status (record {
  job_id = r.job_id;
  state = r.state;
  exit_code = r.exit_code;
  error = r.error;
  gpu_util = none;
  vram_used_mb = none;
  vram_total_mb = none;
})

abbrev running_status : String → Option GpuInfo → Message
running_status job_id g = job_status (record {
  job_id = job_id;
  state = running;
  exit_code = none;
  error = none;
  gpu_util = gpu_field (λ g. g.utilization_gpu) g;
  vram_used_mb = Option.map (λ (g : GpuInfo). g.vram_used_mb) g;
  vram_total_mb = Option.map (λ (g : GpuInfo). g.vram_total_mb) g;
})

-- The request that the runtime gets, in the directory of the job.
unfoldable pub job_request : RunJobRequest → String → ShareLimits → Bool → JobRequest
job_request req work limits harden = record {
  job_id = req.job_id;
  image = if req.image == "" then default_image else req.image;
  command = req.command;
  env = req.env;
  host_workdir = work;
  container_workdir = req.workdir;
  limits = limits;
  gpu_memory_mb = req.gpu_memory_mb;
  harden = harden;
}

-- The messages in their order, without the lines of output, which another task sends. `prepared` is
-- how making the directory and unpacking the workload went, `ran` what the runtime answered.
-- Packing the outputs, whose failure is only logged, comes before the last message.
unfoldable pub execute_remote_job :
    RunJobRequest
    → Option GpuInfo
    → Result (Unit {0})
    → Result JobResult
    → List Message × Result (Unit {0})
execute_remote_job req gpu (err e) ran = (job_accepted req.job_id ∷ [], err e)
execute_remote_job req gpu (ok _) (err e) =
    (job_accepted req.job_id ∷ running_status req.job_id gpu ∷ [], err e)
execute_remote_job req gpu (ok _) (ok result) =
    (job_accepted req.job_id ∷ running_status req.job_id gpu ∷ plain_status result ∷ [], ok tt)

-- The task that forwards the lines of output.
unfoldable pub log_message : String → LogEvent → Message
log_message job_id ev = job_log job_id ev.stream ev.line
