-- ===== src/Jobs/Client.antt =====
-- The loop of `run_remote_job` in crates/gpumesh-core/src/remote.rs over the provider's messages.
use gpu_share.Jobs.Container.{is_zero}
use gpu_share.Base.Int.{pos, ℤ}
use gpu_share.Protocol.{
  stdout, stderr, system, error, job_status, job_log, system, job_rejected, stderr, Message,
  LogStream,
}
use gpu_share.Base.{
  unwrap_or, String, Bool, true, false, Option, none, some, List, [], ◌∷◌, if◌then◌else◌, nat_eq,
  string_eq, ◌&◌,
}
use gpu_share.Common.{cancelled, failed, job, succeeded, JobState, ok, err, Result}

-- What a message makes the loop do: go on, capture a line, or stop with an exit code or an error.
pub data Reaction : Type 0 where
  go_on : Reaction
  capture : String → Reaction
  stop : Result ℤ → Reaction

abbrev pub is_terminal : JobState → Bool
is_terminal succeeded = true
is_terminal failed = true
is_terminal cancelled = true
is_terminal _ = false

-- The line as the job's log keeps it.
unfoldable pub stored_line : LogStream → String → String
stored_line stderr line = "[stderr] " & line
stored_line system line = "[system] " & line
stored_line stdout line = line

unfoldable pub reaction : Message → Reaction
unfolding stored_line
reaction (job_rejected reason) = stop (err (job reason))
reaction (job_log id stream line) = capture (stored_line stream line)
reaction (job_status s) =
    if is_terminal s.state then stop (ok (unwrap_or s.exit_code (pos 1))) else go_on
reaction (error message) = stop (err (job message))
reaction _ = go_on

-- The lines captured so far and the answer of the loop; none while it waits for a message.
pub record Followed : Type 0 where
  pub lines : List String
  pub answer : Option (Result ℤ)

abbrev pub follow : Reaction → Followed → Followed
follow go_on later = later
follow (capture line) later = record later { lines = line ∷ later.lines }
follow (stop r) later = record { lines = []; answer = some r }

-- The loop, over what `recv` gives: `ok none` is the end of the connection.
unfoldable pub job_loop : List (Result (Option Message)) → Followed
job_loop [] = record { lines = []; answer = none }
job_loop (err e ∷ rest) = record { lines = []; answer = some (err e) }
job_loop (ok none ∷ rest) = record { lines = []; answer = some (ok (pos 1)) }
job_loop (ok (some m) ∷ rest) = let later = job_loop rest in follow (reaction m) later

-- The end of `run_remote_job`, by what pulling the outputs gave, if it was asked for.
unfoldable pub after_pull : ℤ → Option (Result (Unit {0})) → Result ℤ
after_pull exit_code none = ok exit_code
after_pull exit_code (some (ok _)) = ok exit_code
after_pull exit_code (some (err e)) = if is_zero exit_code then err e else ok exit_code
