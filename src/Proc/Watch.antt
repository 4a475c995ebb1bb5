-- ===== src/Proc/Watch.antt =====
-- proc/index.ts: the listeners on a child and on its captured streams, and what `capturedRun` makes of
-- a child whose exit and streams have all come to their end.
use mitools.Prelude.{
  ℕ, Bool, true, false, Option, none, some, List, ◌∷◌, ◌++◌, Text, Bytes, if◌then◌else◌, Result, ok,
  err, ◌>>=◌,
}
use mitools.Errors.{Cause}
use mitools.Proc.{
  ExitCode, minus_one, RunResult, Stream, stdout, stderr, ProcError, spawn_failed, read_failed,
  exit_code_of,
}
use mitools.Proc.Drain.{Decoder}

-- A deferred keeps its first value.
abbrev pub done_unsafe : {A : Type 0} → Option A → A → Option A
done_unsafe none a = some a
done_unsafe (some a) b = some a

-- The state of `watchChild`.
pub record Lifecycle : Type 0 where
  pub running : Bool
  pub started : Option (Result ProcError (Unit {0}))
  pub exited : Option ExitCode

unfoldable pub unwatched : Lifecycle
unwatched = record { running = false; started = none; exited = none }

unfoldable pub on_spawn : Lifecycle → Lifecycle
on_spawn l = record { running = true; started = done_unsafe l.started (ok tt); exited = l.exited }

unfoldable pub on_error : List Text → Cause → Lifecycle → Lifecycle
on_error argv cause l = if l.running then l else record {
  running = l.running;
  started = done_unsafe l.started (err (spawn_failed argv cause));
  exited = done_unsafe l.exited minus_one;
}

unfoldable pub on_exit : (Text → Option ℕ) → Option ℕ → Option Text → Lifecycle → Lifecycle
unfolding exit_code_of
on_exit signals code signal l = record {
  running = true;
  started = done_unsafe l.started (ok tt);
  exited = done_unsafe l.exited (exit_code_of signals code signal);
}

pub data StreamCapture : Type 0 where
  captured : Text → StreamCapture
  broken : Cause → StreamCapture

-- The state of `captureStream`; `kills` counts the signals that it sends to the group.
pub record Capture (State : Type 0) : Type 0 where
  pub decoder : State
  pub text : Text
  pub done : Option StreamCapture
  pub kills : List Cause

module _ {State : Type 0} (decoder : Decoder State) where
  unfoldable pub capture_data : Bytes → Capture State → Capture State
  capture_data chunk c =
      let decoded = decoder.decode c.decoder chunk in
      record c { decoder = decoded.1; text = c.text ++ decoded.0 }

  unfoldable pub capture_end : Capture State → Capture State
  capture_end c =
      let text = c.text ++ decoder.finish c.decoder in
      record c { text = text; done = done_unsafe c.done (captured text) }

  unfoldable pub capture_error : Cause → Capture State → Capture State
  capture_error cause c = record c {
    done = done_unsafe c.done (broken cause);
    kills = cause ∷ c.kills;
  }

pub record CapturedProcess : Type 0 where
  pub out : StreamCapture
  pub error_out : StreamCapture
  pub exit_code : ExitCode

-- A child that runs: what its exit and its two streams have come to.
pub record Child : Type 0 where
  pub exited : Option ExitCode
  pub out : Option StreamCapture
  pub error_out : Option StreamCapture

abbrev pub all_done :
    Option StreamCapture → Option StreamCapture → Option ExitCode → Option CapturedProcess
all_done (some out) (some error_out) (some code) =
    some (record { out = out; error_out = error_out; exit_code = code })
all_done out error_out code = none

-- `running.settled`, once it has completed
unfoldable pub settled : Child → Option CapturedProcess
settled c = all_done c.out c.error_out c.exited

abbrev text_of : List Text → Stream → StreamCapture → Result ProcError Text
text_of argv stream (captured text) = ok text
text_of argv stream (broken cause) = err (read_failed argv stream cause)

-- `joinCaptured` and the result of `capturedRun`: a stream that failed is an error, that of stdout first.
unfoldable pub join_captured : List Text → Bool → CapturedProcess → Result ProcError RunResult
join_captured argv timed_out p = do
  out ← text_of argv stdout p.out
  error_out ← text_of argv stderr p.error_out
  ok (record { stdout = out; stderr = error_out; exit_code = p.exit_code; timed_out = timed_out })
