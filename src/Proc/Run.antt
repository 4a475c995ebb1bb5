-- ===== src/Proc/Run.antt =====
-- proc/index.ts: `run` and `capturedRun`, with the permit of the semaphore, as steps of one call: what
-- happens to its child, to its caller, and its own next effect. A deadline may fire at any step.
pub mod Joins
pub mod Slots
use mitools.Prelude.{
  ℕ, zero, suc, Bool, true, false, not, Option, none, some, List, [], ◌∷◌, ◌++◌, Text,
  if◌then◌else◌, Result, ok, err, ◌&&◌,
}
use mitools.Errors.{Cause}
use mitools.Proc.{
  ExitCode, RunResult, Stream, stdin, ProcError, spawn_failed, read_failed, interrupted,
}
use mitools.Proc.Watch.{
  done_unsafe, StreamCapture, captured, broken, Child, CapturedProcess, settled, join_captured,
}

pub data Signal : Type 0 where
  sigterm : Signal
  sigkill : Signal

pub data Outcome : Type 0 where
  returned : RunResult → Outcome
  failed : ProcError → Outcome
  cancelled : Outcome

-- Where the call is. `terminating` is `terminateCaptured`: whether it has sent SIGKILL, whether it is the
-- one of the interrupted join, which the release repeats, and what the call comes to.
pub data RunPhase : Type 0 where
  queued : RunPhase
  taken : RunPhase
  spawning : RunPhase
  writing : RunPhase
  joining : RunPhase
  terminating : Bool → Bool → Outcome → RunPhase
  over : Outcome → RunPhase

-- The fiber that waits for the external signal.
pub data Watcher : Type 0 where
  waits : Watcher
  grace : Watcher
  killed : Watcher

-- `signals` are those sent to the group, in order; `armed` the fiber of the budget.
pub record Run : Type 0 where
  pub argv : List Text
  pub phase : RunPhase
  pub child : Option Child
  pub has_signal : Bool
  pub aborted : Bool
  pub watcher : Watcher
  pub armed : Bool
  pub timed_out : Bool
  pub signals : List Signal

-- `takes` to `interrupts` are of the call, `aborts` to `budget_ends` of its signal and deadlines, and
-- the rest of its child.
pub data RunEvent : Type 0 where
  takes : RunEvent
  proceeds : RunEvent
  interrupts : RunEvent
  aborts : RunEvent
  watcher_acts : RunEvent
  watcher_grace_ends : RunEvent
  grace_ends : RunEvent
  budget_ends : RunEvent
  start_fails : Cause → RunEvent
  spawned : RunEvent
  input_fails : Cause → RunEvent
  exits : ExitCode → RunEvent
  out_done : StreamCapture → RunEvent
  error_out_done : StreamCapture → RunEvent

abbrev pub new_child : Child
new_child = record { exited = none; out = none; error_out = none }

abbrev pub settled_child : Option Child → Option CapturedProcess
settled_child none = none
settled_child (some c) = settled c

abbrev pub to_phase : RunPhase → Run → Run
to_phase phase r = record r { phase = phase }

-- `terminateCaptured`, its first signal
abbrev pub terminate : Bool → Outcome → Run → Run
terminate again outcome r = record r {
  phase = terminating false again outcome;
  signals = r.signals ++ sigterm ∷ [];
}

-- The join has come to its end: a result, or the failure of a stream, whose release terminates.
abbrev pub joined : Result ProcError RunResult → Run → Run
joined (ok result) r = to_phase (over (returned result)) r
joined (err e) r = record r { phase = over (failed e); signals = r.signals ++ sigterm ∷ [] }

abbrev pub join_if : Option CapturedProcess → Run → Run
join_if none r = r
join_if (some p) r = joined (join_captured r.argv r.timed_out p) r

-- The release after an interrupted join terminates again, and finds the child settled.
abbrev pub terminated_if : Option CapturedProcess → Bool → Outcome → Run → Run
terminated_if none again outcome r = r
terminated_if (some p) true outcome r = record r {
  phase = over outcome;
  signals = r.signals ++ sigterm ∷ [];
}
terminated_if (some p) false outcome r = to_phase (over outcome) r

unfoldable pub proceed : RunPhase → Run → Run
unfolding settled join_captured
proceed queued r = if r.aborted then to_phase (over (failed (interrupted r.argv))) r else r
proceed taken r =
    if r.aborted then to_phase (over (failed (interrupted r.argv))) r else to_phase spawning r
proceed writing r = to_phase joining r
proceed joining r = join_if (settled_child r.child) r
proceed (terminating sent again outcome) r = terminated_if (settled_child r.child) again outcome r
proceed phase r = r

-- Where the fiber of the call can be interrupted.
unfoldable pub interrupt_run : RunPhase → Run → Run
interrupt_run queued r = to_phase (over cancelled) r
interrupt_run taken r = to_phase (over cancelled) r
interrupt_run joining r = terminate true cancelled r
interrupt_run phase r = r

abbrev pub take_permit : RunPhase → Run → Run
take_permit queued r = to_phase taken r
take_permit phase r = r

abbrev pub start_failed : RunPhase → Cause → Run → Run
start_failed spawning cause r = to_phase (over (failed (spawn_failed r.argv cause))) r
start_failed phase cause r = r

abbrev pub child_spawned : RunPhase → Run → Run
child_spawned spawning r = record r { phase = writing; child = some new_child }
child_spawned phase r = r

abbrev pub input_failed : RunPhase → Cause → Run → Run
input_failed writing cause r = terminate false (failed (read_failed r.argv stdin cause)) r
input_failed phase cause r = r

-- SIGKILL after the grace period, unless the child has settled
abbrev pub kill_after : RunPhase → Option CapturedProcess → Run → Run
kill_after (terminating false again outcome) none r = record r {
  phase = terminating true again outcome;
  signals = r.signals ++ sigkill ∷ [];
}
kill_after phase p r = r

-- The fibers of the scope run while the call joins, and while its interrupted join terminates.
abbrev pub watch : RunPhase → Bool → Watcher → Run → Run
watch joining true waits r = record r { watcher = grace; signals = r.signals ++ sigterm ∷ [] }
watch (terminating sent true outcome) true waits r = record r {
  watcher = grace;
  signals = r.signals ++ sigterm ∷ [];
}
watch phase aborted watcher r = r

abbrev pub watch_grace : RunPhase → Watcher → Option CapturedProcess → Run → Run
watch_grace joining grace none r = record r {
  watcher = killed;
  signals = r.signals ++ sigkill ∷ [];
}
watch_grace (terminating sent true outcome) grace none r = record r {
  watcher = killed;
  signals = r.signals ++ sigkill ∷ [];
}
watch_grace phase watcher p r = r

abbrev pub end_budget : RunPhase → Bool → Run → Run
end_budget joining true r = record r {
  armed = false;
  timed_out = true;
  signals = r.signals ++ sigkill ∷ [];
}
end_budget (terminating sent true outcome) true r = record r {
  armed = false;
  timed_out = true;
  signals = r.signals ++ sigkill ∷ [];
}
end_budget phase armed r = r

-- The signal that a failed read sends.
abbrev read_signals : StreamCapture → List Signal
read_signals (captured text) = []
read_signals (broken cause) = sigterm ∷ []

abbrev pub with_child : (Child → Child) → Option Child → Option Child
with_child f none = none
with_child f (some c) = some (f c)

unfoldable pub exit_child : ExitCode → Child → Child
exit_child code c = record c { exited = done_unsafe c.exited code }

unfoldable pub end_out : StreamCapture → Child → Child
end_out capture c = record c { out = done_unsafe c.out capture }

unfoldable pub end_error_out : StreamCapture → Child → Child
end_error_out capture c = record c { error_out = done_unsafe c.error_out capture }

unfoldable pub run_step : RunEvent → Run → Run
unfolding proceed interrupt_run exit_child end_out end_error_out settled
run_step takes r = take_permit r.phase r
run_step proceeds r = proceed r.phase r
run_step interrupts r = interrupt_run r.phase r
run_step aborts r = record r { aborted = r.has_signal }
run_step watcher_acts r = watch r.phase r.aborted r.watcher r
run_step watcher_grace_ends r = watch_grace r.phase r.watcher (settled_child r.child) r
run_step grace_ends r = kill_after r.phase (settled_child r.child) r
run_step budget_ends r = end_budget r.phase r.armed r
run_step (start_fails cause) r = start_failed r.phase cause r
run_step spawned r = child_spawned r.phase r
run_step (input_fails cause) r = input_failed r.phase cause r
run_step (exits code) r = record r { child = with_child (exit_child code) r.child }
run_step (out_done capture) r = record r {
  child = with_child (end_out capture) r.child;
  signals = r.signals ++ read_signals capture;
}
run_step (error_out_done capture) r = record r {
  child = with_child (end_error_out capture) r.child;
  signals = r.signals ++ read_signals capture;
}

unfoldable pub holds_permit : RunPhase → Bool
holds_permit queued = false
holds_permit (over outcome) = false
holds_permit phase = true

-- A call that would take a permit waits while there is none, and one that ends gives it back.
abbrev pub with_permits : Bool → Bool → ℕ → Run → Run → Run × ℕ
with_permits false true zero r after = (r, zero)
with_permits false true (suc permits) r after = (after, permits)
with_permits true false permits r after = (after, suc permits)
with_permits before holding permits r after = (after, permits)

-- The calls that share the semaphore: one step of the call with a number.
unfoldable pub step_run : ℕ → RunEvent → ℕ → List Run → List Run × ℕ
unfolding run_step holds_permit
step_run i e permits [] = ([], permits)
step_run zero e permits (r ∷ rs) =
    let after = run_step e r in
    let one = with_permits (holds_permit r.phase) (holds_permit after.phase) permits r after in
    (one.0 ∷ rs, one.1)
step_run (suc i) e permits (r ∷ rs) = let rest = step_run i e permits rs in (r ∷ rest.0, rest.1)
