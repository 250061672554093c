-- ===== src/Jobs/Tests.antt =====
-- Runs of the admission of jobs, and of the active containers.
use gpu_share.Jobs.Exit.{
  nothing, from_right, from_left, Interleaved, log_messages, job_loop-execute_remote_job,
  execute_remote_job-waits, ran,
}
use gpu_share.Base.Int.{ltb_ℤ, pos}
use gpu_share.Network.Channel.{arrived}
use gpu_share.Jobs.Client.{job_loop}
use gpu_share.Jobs.Records.{
  load_record, insert_newest, newest_first, loadable, list_records, new_record, JobDirs,
}
use gpu_share.Jobs.Container.{exited, wait_result, job_result, Waited, LogEvent, JobResult}
use gpu_share.Jobs.Container.{run_job}
use gpu_share.Jobs.Execution.{job_request, execute_remote_job}
use gpu_share.Protocol.{stdout, Message, RunJobRequest}
use gpu_share.Jobs.{needed_vram, strip_prefix, trim_end_slashes, image_allowed, run_job_refusal}
use gpu_share.Base.{
  ◌++◌, good, Parsed, List, list_beq, show, String, true, false, none, some, [], ◌∷◌, ◌≡◌, refl,
  nat_eq, string_eq, ◌↔◌,
}
use gpu_share.Common.{is_ok, runtime, default_config, share_limits, ShareLimits, ok, err}
use gpu_share.Jobs.Admission.{IsAdmitted, Covering, run_job_refusal-IsAdmitted, image_allowed_lem}
use gpu_share.Jobs.Runtime.{begin_job, release}
use gpu_share.Cuda.Gpu.{GpuInfo}

abbrev gpu : GpuInfo
gpu = record {
  index = 0;
  name = "RTX";
  uuid = none;
  vram_total_mb = 8192;
  vram_used_mb = 192;
  vram_free_mb = 8000;
  utilization_gpu = some 3;
  utilization_mem = none;
  temperature_c = none;
  power_watts = none;
  driver_version = none;
  cuda_version = none;
  compute_capability = none;
}

abbrev request : RunJobRequest
request = record {
  job_id = "j1";
  image = "python:3.12";
  command = "python" ∷ [];
  env = [];
  workdir = "/workspace";
  transfer_id = none;
  gpu_memory_mb = some 4096;
}

abbrev limits : ShareLimits
limits = share_limits (default_config "host")

lookalike_refused : image_allowed "pythonista" ("python" ∷ []) ≡ false
unfolding image_allowed trim_end_slashes strip_prefix list_beq
lookalike_refused = refl

image_works : image_allowed "python:3.12" ("nvidia/cuda" ∷ "python/" ∷ []) ≡ true
unfolding image_allowed trim_end_slashes strip_prefix list_beq
image_works = refl

image_allowed_lem_example :
    (image_allowed "python:3.12" ("nvidia/cuda" ∷ "python/" ∷ []) ≡ true)
    ↔ Covering "python:3.12" ("nvidia/cuda" ∷ "python/" ∷ [])
image_allowed_lem_example = image_allowed_lem "python:3.12" ("nvidia/cuda" ∷ "python/" ∷ [])

request_works : run_job_refusal true (default_config "host") (gpu ∷ []) request ≡ none
unfolding run_job_refusal default_config image_allowed trim_end_slashes strip_prefix list_beq
    needed_vram
request_works = refl

run_job_refusal-IsAdmitted_example : IsAdmitted true (default_config "host") (gpu ∷ []) request
run_job_refusal-IsAdmitted_example =
    run_job_refusal-IsAdmitted true (default_config "host") (gpu ∷ []) request request_works

second_refused :
    begin_job limits "j2" ("gpumesh-j1" ∷ []) ≡ err (runtime "max concurrent jobs reached (1)")
unfolding begin_job share_limits default_config show
second_refused = refl

-- Two jobs under one identifier leave the list together when one of them ends.
twins_released : release "gpumesh-j1" ("gpumesh-j1" ∷ "gpumesh-j1" ∷ []) ≡ []
unfolding release
twins_released = refl

abbrev sleeping : Waited
sleeping = exited (some (pos 3))

abbrev docker : List String → Parsed Waited
docker args = good sleeping

abbrev quiet : List String → List String
quiet active = active

abbrev evs : List LogEvent
evs = record { stream = stdout; line = "hello" } ∷ []

abbrev result : JobResult
result = job_result "j1" (ok (pos 3))

docker_answers : ran docker quiet [] request "/work" limits true (some gpu) ≡ ok result
unfolding run_job begin_job share_limits default_config job_request release wait_result
docker_answers = refl

abbrev answers : List Message
answers = (execute_remote_job request (some gpu) (ok tt) (ok result)).0 ++ log_messages "j1" evs

in_turn :
    Interleaved
      (execute_remote_job request (some gpu) (ok tt) (ok result)).0
      (log_messages "j1" evs)
      answers
unfolding execute_remote_job
in_turn = from_left (from_left (from_left (from_right nothing)))

job_loop-execute_remote_job_example : (job_loop (arrived answers ++ [])).answer ≡ some (ok (pos 3))
job_loop-execute_remote_job_example =
    job_loop-execute_remote_job docker quiet [] request "/work" limits true (some gpu) sleeping
      result evs answers [] refl docker_answers in_turn

abbrev unanswered : List Message
unanswered =
    (execute_remote_job request (some gpu) (ok tt)
      (err (runtime "max concurrent jobs reached (1)"))).0

without_lines : Interleaved unanswered [] unanswered
unfolding execute_remote_job
without_lines = from_left (from_left nothing)

no_answer :
    is_ok
      (execute_remote_job request
        (some gpu)
        (ok tt)
        (err (runtime "max concurrent jobs reached (1)"))).1
    ≡ false
unfolding execute_remote_job
no_answer = refl

execute_remote_job-waits_example : (job_loop (arrived unanswered)).answer ≡ none
execute_remote_job-waits_example =
    execute_remote_job-waits request (some gpu) (ok tt)
      (err (runtime "max concurrent jobs reached (1)")) [] unanswered no_answer without_lines

abbrev two_jobs : JobDirs
two_jobs =
    ("a", record { meta = some (ok (new_record (pos 5) "a" none "img" [])); log = none })
    ∷ ("b", record { meta = some (ok (new_record (pos 9) "b" none "img" [])); log = none })
    ∷ ("c", record { meta = none; log = none })
    ∷ []

newer_first :
    list_records two_jobs
    ≡ new_record (pos 9) "b" none "img" [] ∷ new_record (pos 5) "a" none "img" [] ∷ []
unfolding list_records loadable newest_first insert_newest load_record ltb_ℤ new_record
newer_first = refl
