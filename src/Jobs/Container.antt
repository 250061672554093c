-- ===== src/Jobs/Container.antt =====
-- `run_job` of crates/gpumesh-runtime/src/docker.rs with its requests and results of job.rs beside
-- it. Starting docker and waiting for it are parameters.
use gpu_share.Base.Int.{negsuc, pos, ℤ}
use gpu_share.Protocol.{LogStream}
use gpu_share.Jobs.Runtime.{container_name, release, begin_job}
use gpu_share.Base.{
  sym, Parsed-cases, good, any, bad, Parsed, show, ℕ, String, Bool, false, Option, none, some, List,
  [], ◌∷◌, ◌++◌, inl, inr, ◌≡◌, refl, arith, if◌then◌else◌, ◌==◌, nat_eq, string_eq, ◌&◌,
}
use gpu_share.Common.{
  ok_inj, Result-cases, runtime, failed, display, succeeded, ShareLimits, JobState, ok, err, Result,
}

pub record JobRequest : Type 0 where
  pub job_id : String
  pub image : String
  pub command : List String
  pub env : List (String × String)
  pub host_workdir : String
  pub container_workdir : String
  pub limits : ShareLimits
  pub gpu_memory_mb : Option ℕ
  pub harden : Bool

pub record JobResult : Type 0 where
  pub job_id : String
  pub state : JobState
  pub exit_code : Option ℤ
  pub error : Option String
  pub container_id : Option String

-- A line of output with its stream.
pub record LogEvent : Type 0 where
  pub stream : LogStream
  pub line : String

abbrev hardening : List String
hardening =
    "--cap-drop" ∷ "ALL" ∷ "--security-opt" ∷ "no-new-privileges" ∷ "--read-only" ∷ "--tmpfs"
    ∷ "/tmp:rw,noexec,nosuid,size=512m" ∷ []

abbrev cpu_args : Option String → List String
cpu_args none = []
cpu_args (some cpus) = "--cpus" ∷ cpus ∷ []

abbrev ram_args : Option ℕ → List String
ram_args none = []
ram_args (some ram) = "--memory" ∷ (show ram & "m") ∷ []

unfoldable pub env_args : List (String × String) → List String
env_args [] = []
env_args ((k, v) ∷ env) = "-e" ∷ (k & "=" & v) ∷ env_args env

-- The options of `docker run`, and the whole line.
unfoldable pub docker_options : JobRequest → List String
docker_options req =
    ("run"
      ∷ "--rm"
      ∷ "--name"
      ∷ container_name req.job_id
      ∷ "--gpus"
      ∷ "device=0"
      ∷ "-v"
      ∷ (req.host_workdir & ":" & req.container_workdir)
      ∷ "-w"
      ∷ req.container_workdir
      ∷ "--network"
      ∷ "bridge"
      ∷ [])
    ++ ((if req.harden then hardening else [])
        ++ (cpu_args req.limits.max_cpu_cores
            ++ (ram_args req.limits.max_ram_mb ++ env_args req.env)))

unfoldable pub docker_args : JobRequest → List String
unfolding docker_options env_args
docker_args req = docker_options req ++ req.image ∷ req.command

-- How waiting for the process ended: its status, whose code is missing after a signal, the time
-- limit, or an error.
pub data Waited : Type 0 where
  exited : Option ℤ → Waited
  timed_out : Waited
  wait_failed : String → Waited

-- `wait_with_logs`, without the lines.
unfoldable pub wait_result : Waited → Result ℤ
wait_result (exited none) = ok (pos 1)
wait_result (exited (some code)) = ok code
wait_result timed_out = err (runtime "job timed out")
wait_result (wait_failed e) = err (runtime e)

abbrev pub is_zero : ℤ → Bool
is_zero (pos n) = n == 0
is_zero (negsuc n) = false

unfoldable pub job_result : String → Result ℤ → JobResult
job_result job_id (ok exit_code) = record {
  job_id = job_id;
  state = if is_zero exit_code then succeeded else failed;
  exit_code = some exit_code;
  error = none;
  container_id = some (container_name job_id);
}
job_result job_id (err e) = record {
  job_id = job_id;
  state = failed;
  exit_code = none;
  error = some (display e);
  container_id = some (container_name job_id);
}

-- `run_job`: the active containers before and after, and the answer. `docker` is how starting it
-- with the arguments and waiting go; other jobs may change the active list in between, by `others`.
unfoldable pub run_job :
    (List String → Parsed Waited)
    → (List String → List String)
    → JobRequest
    → List String
    → List String × Result JobResult
unfolding docker_args begin_job release job_result wait_result display
run_job docker others req active = elim (begin_job req.limits req.job_id active) [
  | err e ↦ (active, err e)
  | ok reserved ↦
      let left = release (container_name req.job_id) (others reserved) in
      elim (docker (docker_args req)) [
        | bad e ↦ (left, err (runtime ("failed to spawn docker: " & e)))
        | good waited ↦ (left, ok (job_result req.job_id (wait_result waited)))
      ]
]

-- `cancel`, by the success of `docker rm`.
unfoldable pub cancel : Parsed Bool → String → List String → List String × Result (Unit {0})
unfolding release
cancel (bad e) name active = (active, err (runtime e))
cancel (good success) name active =
    (release name active, if success then ok tt else err (runtime "failed to cancel container"))

-- Whatever docker does, a job that ends has left the list: nothing of its name is active.
pub run_job-released :
    (docker : List String → Parsed Waited) (others : List String → List String) (req : JobRequest)
    (active reserved : List String)
    → begin_job req.limits req.job_id active ≡ ok reserved
    → any (λ n. n == container_name req.job_id) (run_job docker others req active).0 ≡ false
unfolding run_job release
run_job-released docker others req active reserved h =
    elim (Parsed-cases (docker (docker_args req))) [
      | inl (e, q) ↦ rw (h, q, run_job) (any-retain_not (others reserved))
      | inr (w, q) ↦ rw (h, q, run_job) (any-retain_not (others reserved))
    ]
  where
    any-retain_not :
        (xs : List String)
        → any (λ n. n == container_name req.job_id) (release (container_name req.job_id) xs) ≡ false
    any-retain_not [] = refl
    any-retain_not (x ∷ xs) = ground (arith, any-retain_not xs)

pub run_job-result :
    (docker : List String → Parsed Waited) (others : List String → List String) (req : JobRequest)
    (active : List String) (w : Waited) (r : JobResult)
    → docker (docker_args req) ≡ good w
    → (run_job docker others req active).1 ≡ ok r
    → r ≡ job_result req.job_id (wait_result w)
unfolding run_job
run_job-result docker others req active w r d h =
    elim (Result-cases (begin_job req.limits req.job_id active)) [
      | inl (e, q) ↦ absurd (ground (arith, rw (q, run_job) at h))
      | inr (reserved, q) ↦ sym (ok_inj (rw (q, d, run_job) at h))
    ]
