-- ===== src/Jobs/Runtime.antt =====
-- The containers that `DockerRuntime` of crates/gpumesh-runtime/src/docker.rs counts as active.
use gpu_share.Base.{
  show, leb, retain, String, List, [], ◌∷◌, ◌++◌, ◌≡◌, if◌then◌else◌, ◌==◌, nat_eq, string_eq, not,
  ◌&◌, length,
}
use gpu_share.Common.{runtime, ShareLimits, ok, err, Result}

abbrev pub container_name : String → String
container_name job_id = "gpumesh-" & job_id

-- The reservation at the start of `run_job`.
unfoldable pub begin_job : ShareLimits → String → List String → Result (List String)
begin_job limits job_id active =
    if leb limits.max_concurrent_jobs (length active)
    then err (runtime ("max concurrent jobs reached (" & show limits.max_concurrent_jobs & ")"))
    else ok (active ++ container_name job_id ∷ [])

-- The end of `run_job`, whether the container ran or could not be started, and of `cancel`.
unfoldable pub release : String → List String → List String
release name active = retain (λ n. not (n == name)) active

-- The lists of active containers that a runtime comes to, when every job has the same limits.
pub data Reached (limits : ShareLimits) : List String → Type 0 where
  start : Reached limits []
  begun :
      (job_id : String) (active active' : List String)
      → Reached limits active
      → begin_job limits job_id active ≡ ok active'
      → Reached limits active'
  released :
      (name : String) (active : List String)
      → Reached limits active
      → Reached limits (release name active)
