-- ===== src/Jobs/Exit.antt =====
-- The exit code of a remote job, from docker at the provider (crates/gpumesh-runtime/src/docker.rs)
-- over the messages of both sides in crates/gpumesh-core/src/remote.rs to the client's answer.
use gpu_share.Network.Channel.{arrived}
use mathlib.Core.Path.{subst}
use gpu_share.Cuda.Gpu.{GpuInfo}
use gpu_share.Base.Int.{pos, ℤ}
use gpu_share.Jobs.Execution.{job_request, log_message, execute_remote_job}
use gpu_share.Jobs.Container.{
  run_job-result, timed_out, wait_failed, is_zero, docker_args, wait_result, JobResult, job_result,
  run_job, exited, Waited, LogEvent,
}
use gpu_share.Jobs.Client.{capture, stored_line, stop, go_on, reaction, job_loop}
use gpu_share.Protocol.{RunJobRequest, Message}
use gpu_share.Base.{
  Bool-cases, good, Parsed, String, Bool, false, Option, none, some, List, [], ◌∷◌, ◌++◌, inl, inr,
  ◌≡◌, refl, sym, arith, nat_eq, string_eq,
}
use gpu_share.Common.{is_ok, ShareLimits, ok, err, Result}

-- Two tasks send on one connection: each keeps its order.
pub data Interleaved {ℓ} {A : Type ℓ} : List A → List A → List A → Type ℓ where
  nothing : Interleaved [] [] []
  from_left : {x : A} {xs ys zs : List A} → Interleaved xs ys zs → Interleaved (x ∷ xs) ys (x ∷ zs)
  from_right : {y : A} {xs ys zs : List A} → Interleaved xs ys zs → Interleaved xs (y ∷ ys) (y ∷ zs)

-- Messages that the loop reads past, and those that end with a last one that stops it.
abbrev pub IsCalm : Message → Type 0
IsCalm m = reaction m ≡ go_on

data EndsIn (r : Result ℤ) : List Message → Type 0 where
  last_one : {m : Message} → reaction m ≡ stop r → EndsIn r (m ∷ [])
  earlier : {m : Message} {ms : List Message} → IsCalm m → EndsIn r ms → EndsIn r (m ∷ ms)

data AreCalm : List Message → Type 0 where
  none_left : AreCalm []
  one_more : {m : Message} {ms : List Message} → IsCalm m → AreCalm ms → AreCalm (m ∷ ms)

-- Lines of output are captured.
data AreLines : List Message → Type 0 where
  no_line : AreLines []
  one_line :
      {m : Message} {ms : List Message} (line : String)
      → reaction m ≡ capture line
      → AreLines ms
      → AreLines (m ∷ ms)

job_loop-stops :
    {r : Result ℤ} {xs ys zs : List Message} (more : List (Result (Option Message)))
    → Interleaved xs ys zs
    → EndsIn r xs
    → AreLines ys
    → (job_loop (arrived zs ++ more)).answer ≡ some r
unfolding job_loop
job_loop-stops more nothing m ls = elim m [ ]
job_loop-stops more (from_left i) (last_one e) ls = rw (e, job_loop) refl
job_loop-stops more (from_left i) (earlier e m) ls = rw (e, job_loop) (job_loop-stops more i m ls)
job_loop-stops more (from_right i) m (one_line line e ls) =
    rw (e, job_loop) (job_loop-stops more i m ls)

job_loop-waits :
    {xs ys zs : List Message}
    → Interleaved xs ys zs
    → AreCalm xs
    → AreLines ys
    → (job_loop (arrived zs)).answer ≡ none
unfolding job_loop
job_loop-waits nothing m ls = refl
job_loop-waits (from_left i) (one_more e m) ls = rw (e, job_loop) (job_loop-waits i m ls)
job_loop-waits (from_right i) m (one_line line e ls) = rw (e, job_loop) (job_loop-waits i m ls)

abbrev pub log_messages : String → List LogEvent → List Message
log_messages job_id [] = []
log_messages job_id (ev ∷ evs) = log_message job_id ev ∷ log_messages job_id evs

log_messages-AreLines : (job_id : String) (evs : List LogEvent) → AreLines (log_messages job_id evs)
unfolding log_message reaction
log_messages-AreLines job_id [] = no_line
log_messages-AreLines job_id (ev ∷ evs) =
    one_line (stored_line ev.stream ev.line) refl (log_messages-AreLines job_id evs)

-- The exit code that a client shows for a container.
abbrev pub exit_of : Waited → ℤ
exit_of (exited (some code)) = code
exit_of _ = pos 1

module _ (docker : List String → Parsed Waited) (others : List String → List String)
    (active : List String) (req : RunJobRequest) (work : String) (limits : ShareLimits)
    (harden : Bool) (gpu : Option GpuInfo) where
  -- The answer of the runtime to the job.
  abbrev pub ran : Result JobResult
  ran = (run_job docker others (job_request req work limits harden) active).1

  result_of :
      (w : Waited) (r : JobResult)
      → docker (docker_args (job_request req work limits harden)) ≡ good w
      → ran ≡ ok r
      → r ≡ job_result req.job_id (wait_result w)
  unfolding job_request
  result_of w r d h =
      run_job-result docker others (job_request req work limits harden) active w r d h

  job_result-stops :
      (w : Waited)
      → EndsIn
          (ok (exit_of w))
          (execute_remote_job req gpu (ok tt) (ok (job_result req.job_id (wait_result w)))).0
  unfolding execute_remote_job job_result wait_result reaction
  job_result-stops (exited none) = earlier refl (earlier refl (last_one refl))
  job_result-stops (exited (some code)) = elim (Bool-cases (is_zero code)) [
    | inl y ↦ earlier refl (earlier refl (last_one (ground (arith, y))))
    | inr n ↦ earlier refl (earlier refl (last_one (ground (arith, n))))
  ]
  job_result-stops timed_out = earlier refl (earlier refl (last_one refl))
  job_result-stops (wait_failed e) = earlier refl (earlier refl (last_one refl))

  -- The client of a job that docker took answers with the exit code of the container, and with 1
  -- where it has none, was stopped at the time limit or could not be waited for: however the lines
  -- of output fall between the provider's messages, and whatever comes after them.
  pub job_loop-execute_remote_job :
      (w : Waited) (r : JobResult) (evs : List LogEvent) (sent : List Message)
      (more : List (Result (Option Message)))
      → docker (docker_args (job_request req work limits harden)) ≡ good w
      → ran ≡ ok r
      → Interleaved (execute_remote_job req gpu (ok tt) (ok r)).0 (log_messages req.job_id evs) sent
      → (job_loop (arrived sent ++ more)).answer ≡ some (ok (exit_of w))
  job_loop-execute_remote_job w r evs sent more d h i =
      job_loop-stops more i
        (subst
          (λ (x : JobResult). EndsIn (ok (exit_of w)) (execute_remote_job req gpu (ok tt) (ok x)).0)
          (sym (result_of w r d h)) (job_result-stops w))
        (log_messages-AreLines req.job_id evs)

-- Where the workload cannot be prepared or the runtime gives an error, the messages of the provider
-- do not end the client's loop: it waits for more.
pub execute_remote_job-waits :
    (req : RunJobRequest) (gpu : Option GpuInfo) (prepared : Result (Unit {0}))
    (answer : Result JobResult) (evs : List LogEvent) (sent : List Message)
    → is_ok (execute_remote_job req gpu prepared answer).1 ≡ false
    → Interleaved (execute_remote_job req gpu prepared answer).0 (log_messages req.job_id evs) sent
    → (job_loop (arrived sent)).answer ≡ none
unfolding execute_remote_job reaction
execute_remote_job-waits req gpu (err e) answer evs sent h i =
    job_loop-waits i (one_more refl none_left) (log_messages-AreLines req.job_id evs)
execute_remote_job-waits req gpu (ok u) (err e) evs sent h i =
    job_loop-waits i (one_more refl (one_more refl none_left))
      (log_messages-AreLines req.job_id evs)
execute_remote_job-waits req gpu (ok u) (ok r) evs sent h i = absurd (ground arith)
