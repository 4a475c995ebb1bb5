-- ===== src/Proc/Run/Slots.antt =====
-- The permits of the semaphore bound the children that run.
use mitools.Prelude.{
  arith, ◌∙◌, ℕ, zero, suc, ◌+◌, ◌≤◌, ◌≡◌, refl, Bool, true, false, Option, none, some, List, [],
  ◌∷◌, All, map, Text,
}
use mitools.Proc.Watch.{Child, CapturedProcess}
use mitools.Proc.Run.{
  RunPhase, queued, over, waits, Run, RunEvent, settled_child, run_step, holds_permit, with_permits,
  step_run,
}
use mitools.Proc.Run.Joins.{IsRun, IsJoined, IsFresh-IsJoined, run_step-IsRun}

-- A call that waits for its permit.
abbrev pub new_run : List Text × Bool × Bool → Run
new_run (argv, has_signal, armed) = record {
  argv = argv;
  phase = queued;
  child = none;
  has_signal = has_signal;
  aborted = false;
  watcher = waits;
  armed = armed;
  timed_out = false;
  signals = [];
}

abbrev one_if : Bool → ℕ
one_if true = 1
one_if false = 0

-- Its child runs, or a stream of it is still open.
abbrev live_child : Option Child → Option CapturedProcess → Bool
live_child none p = false
live_child (some c) none = true
live_child (some c) (some p) = false

abbrev pub live : Run → Bool
live r = live_child r.child (settled_child r.child)

abbrev pub live_count : List Run → ℕ
live_count [] = 0
live_count (r ∷ rs) = one_if (live r) + live_count rs

abbrev pub holders : List Run → ℕ
holders [] = 0
holders (r ∷ rs) = one_if (holds_permit r.phase) + holders rs

-- Steps of the calls, each with the number of its call.
abbrev pub step_runs : List (ℕ × RunEvent) → List Run → ℕ → List Run × ℕ
step_runs [] rs permits = (rs, permits)
step_runs ((i, e) ∷ es) rs permits =
    let after = step_run i e permits rs in step_runs es after.0 after.1

live_child-IsJoined :
    (c : Option Child) (o : Option CapturedProcess)
    → settled_child c ≡ o
    → IsJoined c
    → live_child c o ≡ false
live_child-IsJoined none o e h = refl
live_child-IsJoined (some c) none e h = cc (e, h.1)
live_child-IsJoined (some c) (some p) e h = refl

live-le : (b : Bool) → one_if b ≤ 1
live-le true = omega arith
live-le false = omega arith

live-holds_permit :
    (phase : RunPhase) (r : Run)
    → IsRun phase r.child
    → one_if (live r) ≤ one_if (holds_permit phase)
unfolding holds_permit
live-holds_permit queued r h =
    rw (live_child-IsJoined r.child (settled_child r.child) refl (IsFresh-IsJoined r.child h))
      (omega arith)
live-holds_permit (over outcome) r h =
    rw (live_child-IsJoined r.child (settled_child r.child) refl h) (omega arith)
live-holds_permit phase r h = live-le (live r)

-- Every call knows of its child what its phase says.
abbrev IsRuns : List Run → Type 0
IsRuns = All (λ r. IsRun r.phase r.child)

live_count-holders : (rs : List Run) → IsRuns rs → live_count rs ≤ holders rs
live_count-holders [] h = omega arith
live_count-holders (r ∷ rs) h =
    omega (arith, live-holds_permit r.phase r h.0, live_count-holders rs h.1)

-- What a step of one call does to the permits.
with_permits-holds_permit :
    (before holding : Bool) (permits : ℕ) (r after : Run)
    → holds_permit r.phase ≡ before
    → holds_permit after.phase ≡ holding
    → IsRun r.phase r.child
    → IsRun after.phase after.child
    → (one_if (holds_permit (with_permits before holding permits r after).0.phase)
          + (with_permits before holding permits r after).1
        ≡ one_if before + permits)
      × IsRun
          (with_permits before holding permits r after).0.phase
          (with_permits before holding permits r after).0.child
with_permits-holds_permit false true zero r after b a h k = (rw b refl, h)
with_permits-holds_permit false true (suc permits) r after b a h k = (rw a (omega arith), k)
with_permits-holds_permit true false permits r after b a h k = (rw a (omega arith), k)
with_permits-holds_permit true true permits r after b a h k = (rw a refl, k)
with_permits-holds_permit false false permits r after b a h k = (rw a refl, k)

step_run-holders :
    (i : ℕ) (e : RunEvent) (permits : ℕ) (rs : List Run)
    → IsRuns rs
    → (holders (step_run i e permits rs).0 + (step_run i e permits rs).1 ≡ holders rs + permits)
      × IsRuns (step_run i e permits rs).0
unfolding step_run
step_run-holders i e permits [] h = (refl, tt)
step_run-holders zero e permits (r ∷ rs) h =
    let after = run_step e r in
    let one =
      with_permits-holds_permit (holds_permit r.phase) (holds_permit after.phase) permits r after
        refl refl h.0 (run_step-IsRun e r h.0) in
    (omega (arith, one.0), (one.1, h.1))
step_run-holders (suc i) e permits (r ∷ rs) h =
    let rest = step_run-holders i e permits rs h.1 in (omega (arith, rest.0), (h.0, rest.1))

step_runs-holders :
    (es : List (ℕ × RunEvent)) (permits : ℕ) (rs : List Run)
    → IsRuns rs
    → (holders (step_runs es rs permits).0 + (step_runs es rs permits).1 ≡ holders rs + permits)
      × IsRuns (step_runs es rs permits).0
step_runs-holders [] permits rs h = (refl, h)
step_runs-holders ((i, e) ∷ es) permits rs h =
    let one = step_run-holders i e permits rs h in
    let rest = step_runs-holders es (step_run i e permits rs).1 (step_run i e permits rs).0 one.1 in
    (rest.0 ∙ one.0, rest.1)

new_run-holders :
    (calls : List (List Text × Bool × Bool))
    → IsRuns (map new_run calls) × (holders (map new_run calls) ≡ 0)
unfolding holds_permit
new_run-holders [] = (tt, refl)
new_run-holders (c ∷ calls) =
    let rest = new_run-holders calls in ((tt, rest.0), omega (arith, rest.1))

-- Any number of calls share a number of permits. Whatever order their steps, their children's events,
-- interrupts, aborts and deadlines come in: the permits that are left and the calls that hold one are
-- together the permits of the start, so none is lost and none is made; the children that have not
-- been joined are at most that many; and a call that is over has no child or one that has exited and
-- whose streams are at their end.
pub step_runs-live_count :
    (es : List (ℕ × RunEvent)) (calls : List (List Text × Bool × Bool)) (permits : ℕ)
    → let after = step_runs es (map new_run calls) permits in
      (holders after.0 + after.1 ≡ permits)
      × (live_count after.0 ≤ permits)
      × All (λ r. IsRun r.phase r.child) after.0
step_runs-live_count es calls permits =
    let fresh = new_run-holders calls in
    let h = step_runs-holders es permits (map new_run calls) fresh.0 in
    let bound = live_count-holders (step_runs es (map new_run calls) permits).0 h.1 in
    (omega (arith, h.0, fresh.1), omega (arith, h.0, fresh.1, bound), h.1)
