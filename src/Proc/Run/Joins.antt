-- ===== src/Proc/Run/Joins.antt =====
-- A call is over only when its child, if one has been started, has been joined.
use mitools.Prelude.{
  ◌≡◌, refl, Bool, true, false, Option, none, some, if◌then◌else◌, Result, ok, err,
}
use mitools.Errors.{Cause}
use mitools.Proc.{ExitCode, RunResult, ProcError}
use mitools.Proc.Watch.{
  done_unsafe, StreamCapture, Child, CapturedProcess, all_done, settled, join_captured,
}
use mitools.Proc.Run.{
  Outcome, RunPhase, queued, taken, spawning, writing, joining, terminating, over, Watcher, waits,
  grace, Run, RunEvent, takes, proceeds, interrupts, aborts, watcher_acts, watcher_grace_ends,
  grace_ends, budget_ends, start_fails, spawned, input_fails, exits, out_done, error_out_done,
  settled_child, joined, join_if, terminated_if, proceed, interrupt_run, take_permit, start_failed,
  child_spawned, input_failed, kill_after, watch, watch_grace, end_budget, with_child, exit_child,
  end_out, end_error_out, run_step,
}

-- No child has been started.
abbrev pub IsFresh : Option Child → Type 0
IsFresh none = Unit
IsFresh (some c) = ⊥

-- A child that has been started has exited, and both its streams are at their end.
abbrev pub IsJoined : Option Child → Type 0
IsJoined none = Unit
IsJoined (some c) = (p : CapturedProcess) × (settled c ≡ some p)

-- What the phase of a call says of its child.
abbrev pub IsRun : RunPhase → Option Child → Type 0
IsRun queued c = IsFresh c
IsRun taken c = IsFresh c
IsRun spawning c = IsFresh c
IsRun (over outcome) c = IsJoined c
IsRun phase c = Unit

pub IsFresh-IsJoined : (c : Option Child) → IsFresh c → IsJoined c
IsFresh-IsJoined none h = tt
IsFresh-IsJoined (some c) h = absurd h

settled_child-IsJoined :
    (c : Option Child) (p : CapturedProcess) → settled_child c ≡ some p → IsJoined c
settled_child-IsJoined none p e = tt
settled_child-IsJoined (some c) p e = (p, e)

-- The events of a child.
IsRun-with_child :
    (f : Child → Child) (phase : RunPhase) (c : Option Child)
    → ((d : Child) (p : CapturedProcess) → settled d ≡ some p → settled (f d) ≡ some p)
    → IsRun phase c
    → IsRun phase (with_child f c)
IsRun-with_child f queued none k h = tt
IsRun-with_child f taken none k h = tt
IsRun-with_child f spawning none k h = tt
IsRun-with_child f (over outcome) none k h = tt
IsRun-with_child f (over outcome) (some c) k h = (h.0, k c h.0 h.1)
IsRun-with_child f queued (some c) k h = absurd h
IsRun-with_child f taken (some c) k h = absurd h
IsRun-with_child f spawning (some c) k h = absurd h
IsRun-with_child f phase c k h = tt

keep_code :
    (o e : Option StreamCapture) (x : Option ExitCode) (code : ExitCode) (p : CapturedProcess)
    → all_done o e x ≡ some p
    → all_done o e (done_unsafe x code) ≡ some p
keep_code (some o) (some e) (some x) code p h = h
keep_code (some o) (some e) none code p h = cc
keep_code (some o) none x code p h = cc
keep_code none e x code p h = cc

keep_out :
    (o e : Option StreamCapture) (x : Option ExitCode) (capture : StreamCapture)
    (p : CapturedProcess)
    → all_done o e x ≡ some p
    → all_done (done_unsafe o capture) e x ≡ some p
keep_out (some o) e x capture p h = h
keep_out none e x capture p h = cc

keep_error_out :
    (o e : Option StreamCapture) (x : Option ExitCode) (capture : StreamCapture)
    (p : CapturedProcess)
    → all_done o e x ≡ some p
    → all_done o (done_unsafe e capture) x ≡ some p
keep_error_out (some o) (some e) x capture p h = h
keep_error_out (some o) none x capture p h = cc
keep_error_out none e x capture p h = cc

-- The steps of the call.
join_if-IsRun :
    (o : Option CapturedProcess) (r : Run)
    → settled_child r.child ≡ o
    → IsRun r.phase r.child
    → IsRun (join_if o r).phase (join_if o r).child
join_if-IsRun none r e h = h
join_if-IsRun (some p) r e h = go (join_captured r.argv r.timed_out p)
  where
    go : (j : Result ProcError RunResult) → IsRun (joined j r).phase (joined j r).child
    go (ok result) = settled_child-IsJoined r.child p e
    go (err failure) = settled_child-IsJoined r.child p e

terminated_if-IsRun :
    (o : Option CapturedProcess) (again : Bool) (outcome : Outcome) (r : Run)
    → settled_child r.child ≡ o
    → IsRun r.phase r.child
    → IsRun (terminated_if o again outcome r).phase (terminated_if o again outcome r).child
terminated_if-IsRun none again outcome r e h = h
terminated_if-IsRun (some p) true outcome r e h = settled_child-IsJoined r.child p e
terminated_if-IsRun (some p) false outcome r e h = settled_child-IsJoined r.child p e

if-IsRun :
    (b : Bool) (x y : Run)
    → IsRun x.phase x.child
    → IsRun y.phase y.child
    → IsRun (if b then x else y).phase (if b then x else y).child
if-IsRun true x y h k = h
if-IsRun false x y h k = k

proceed-IsRun :
    (phase : RunPhase) (r : Run)
    → IsRun r.phase r.child
    → IsRun phase r.child
    → IsRun (proceed phase r).phase (proceed phase r).child
unfolding proceed
proceed-IsRun queued r h a = if-IsRun r.aborted _ r (IsFresh-IsJoined r.child a) h
proceed-IsRun taken r h a = if-IsRun r.aborted _ _ (IsFresh-IsJoined r.child a) a
proceed-IsRun writing r h a = tt
proceed-IsRun joining r h a = join_if-IsRun (settled_child r.child) r refl h
proceed-IsRun (terminating sent again outcome) r h a =
    terminated_if-IsRun (settled_child r.child) again outcome r refl h
proceed-IsRun spawning r h a = h
proceed-IsRun (over outcome) r h a = h

interrupt_run-IsRun :
    (phase : RunPhase) (r : Run)
    → IsRun r.phase r.child
    → IsRun phase r.child
    → IsRun (interrupt_run phase r).phase (interrupt_run phase r).child
unfolding interrupt_run
interrupt_run-IsRun queued r h a = IsFresh-IsJoined r.child a
interrupt_run-IsRun taken r h a = IsFresh-IsJoined r.child a
interrupt_run-IsRun joining r h a = tt
interrupt_run-IsRun phase r h a = h

-- A step of one of these fibers keeps what the call knows of its child.
watch-IsRun :
    (phase : RunPhase) (b : Bool) (w : Watcher) (r : Run)
    → IsRun r.phase r.child
    → IsRun (watch phase b w r).phase (watch phase b w r).child
watch-IsRun joining true waits r h = h
watch-IsRun (terminating sent true outcome) true waits r h = h
watch-IsRun phase b w r h = h

watch_grace-IsRun :
    (phase : RunPhase) (w : Watcher) (o : Option CapturedProcess) (r : Run)
    → IsRun r.phase r.child
    → IsRun (watch_grace phase w o r).phase (watch_grace phase w o r).child
watch_grace-IsRun joining grace none r h = h
watch_grace-IsRun (terminating sent true outcome) grace none r h = h
watch_grace-IsRun phase w o r h = h

end_budget-IsRun :
    (phase : RunPhase) (b : Bool) (r : Run)
    → IsRun r.phase r.child
    → IsRun (end_budget phase b r).phase (end_budget phase b r).child
end_budget-IsRun joining true r h = h
end_budget-IsRun (terminating sent true outcome) true r h = h
end_budget-IsRun phase b r h = h

kill_after-IsRun :
    (phase : RunPhase) (o : Option CapturedProcess) (r : Run)
    → IsRun r.phase r.child
    → IsRun (kill_after phase o r).phase (kill_after phase o r).child
kill_after-IsRun (terminating false again outcome) none r h = tt
kill_after-IsRun phase o r h = h

take_permit-IsRun :
    (phase : RunPhase) (r : Run)
    → IsRun r.phase r.child
    → IsRun phase r.child
    → IsRun (take_permit phase r).phase (take_permit phase r).child
take_permit-IsRun queued r h a = a
take_permit-IsRun phase r h a = h

start_failed-IsRun :
    (phase : RunPhase) (cause : Cause) (r : Run)
    → IsRun r.phase r.child
    → IsRun phase r.child
    → IsRun (start_failed phase cause r).phase (start_failed phase cause r).child
start_failed-IsRun spawning cause r h a = IsFresh-IsJoined r.child a
start_failed-IsRun phase cause r h a = h

child_spawned-IsRun :
    (phase : RunPhase) (r : Run)
    → IsRun r.phase r.child
    → IsRun (child_spawned phase r).phase (child_spawned phase r).child
child_spawned-IsRun spawning r h = tt
child_spawned-IsRun phase r h = h

input_failed-IsRun :
    (phase : RunPhase) (cause : Cause) (r : Run)
    → IsRun r.phase r.child
    → IsRun (input_failed phase cause r).phase (input_failed phase cause r).child
input_failed-IsRun writing cause r h = tt
input_failed-IsRun phase cause r h = h

pub run_step-IsRun :
    (e : RunEvent) (r : Run)
    → IsRun r.phase r.child
    → IsRun (run_step e r).phase (run_step e r).child
unfolding run_step settled exit_child end_out end_error_out
run_step-IsRun takes r h = take_permit-IsRun r.phase r h h
run_step-IsRun proceeds r h = proceed-IsRun r.phase r h h
run_step-IsRun interrupts r h = interrupt_run-IsRun r.phase r h h
run_step-IsRun aborts r h = h
run_step-IsRun watcher_acts r h = watch-IsRun r.phase r.aborted r.watcher r h
run_step-IsRun watcher_grace_ends r h =
    watch_grace-IsRun r.phase r.watcher (settled_child r.child) r h
run_step-IsRun grace_ends r h = kill_after-IsRun r.phase (settled_child r.child) r h
run_step-IsRun budget_ends r h = end_budget-IsRun r.phase r.armed r h
run_step-IsRun (start_fails cause) r h = start_failed-IsRun r.phase cause r h h
run_step-IsRun spawned r h = child_spawned-IsRun r.phase r h
run_step-IsRun (input_fails cause) r h = input_failed-IsRun r.phase cause r h
run_step-IsRun (exits code) r h =
    IsRun-with_child (exit_child code) r.phase r.child
      (λ c p e. keep_code c.out c.error_out c.exited code p e) h
run_step-IsRun (out_done capture) r h =
    IsRun-with_child (end_out capture) r.phase r.child
      (λ c p e. keep_out c.out c.error_out c.exited capture p e) h
run_step-IsRun (error_out_done capture) r h =
    IsRun-with_child (end_error_out capture) r.phase r.child
      (λ c p e. keep_error_out c.out c.error_out c.exited capture p e) h
