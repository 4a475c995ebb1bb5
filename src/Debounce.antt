-- ===== src/Debounce.antt =====
-- async/debounce.ts: makeDebounced, as steps of the fibers that share its state. An operation holds
-- the gate while it runs and yields between its effects, and the forked callbacks run in between.
pub mod Steps
pub mod Cancelled
pub mod Quiet
use mitools.Prelude.{
  ℕ, suc, ◌+◌, Bool, true, false, not, Option, none, some, List, [], ◌∷◌, leb, ◌==◌, if◌then◌else◌,
  keep,
}

-- Where a fiber of `fire` is: in its sleep until a time, at the read of `disposed`, or at the call.
pub data Point : Type 0 where
  asleep : ℕ → Point
  awake : Point
  calling : Point

pub record Fiber : Type 0 where
  pub id : ℕ
  pub at : Point

-- Who holds the permit of the gate, and at which effect of its body it is.
pub data Gate : Type 0 where
  free : Gate
  trigger_reads : Gate
  trigger_takes : Gate
  trigger_interrupts : Option ℕ → Gate
  trigger_forks : Gate
  trigger_stores : ℕ → Gate
  cancel_disposes : Gate
  cancel_takes : Gate
  cancel_interrupts : Option ℕ → Gate

-- The two references, the gate, the fibers of the scope, and the times of the calls of `onChange`,
-- the last one first.
pub record Debouncer : Type 0 where
  pub now : ℕ
  pub disposed : Bool
  pub pending : Option ℕ
  pub gate : Gate
  pub fibers : List Fiber
  pub next_id : ℕ
  pub calls : List ℕ

unfoldable pub make_debounced : ℕ → Debouncer
make_debounced now = record {
  now = now;
  disposed = false;
  pending = none;
  gate = free;
  fibers = [];
  next_id = 0;
  calls = [];
}

-- `Fiber.interrupt(fiber)`, unless there is none
unfoldable pub interrupt : Option ℕ → List Fiber → List Fiber
interrupt none fibers = fibers
interrupt (some i) fibers = keep (λ f. not (f.id == i)) fibers

-- One step of `fire`: the fiber at its next point, or its end and whether it called `onChange`.
pub data Progress : Type 0 where
  goes_on : Point → Progress
  ends : Progress
  calls_back : Progress

unfoldable pub fire : ℕ → Bool → Point → Progress
fire now disposed (asleep until) = if leb until now then goes_on awake else goes_on (asleep until)
fire now disposed awake = if disposed then ends else goes_on calling
fire now disposed calling = calls_back

abbrev pub resumed : ℕ → Fiber → List Fiber → List ℕ → Progress → List Fiber × List ℕ
resumed now f fibers calls (goes_on p) = (record { id = f.id; at = p } ∷ fibers, calls)
resumed now f fibers calls ends = (fibers, calls)
resumed now f fibers calls calls_back = (fibers, now ∷ calls)

abbrev pub behind : Fiber → List Fiber × List ℕ → List Fiber × List ℕ
behind f (fibers, calls) = (f ∷ fibers, calls)

unfoldable pub resume : ℕ → Bool → ℕ → List Fiber → List ℕ → List Fiber × List ℕ
unfolding fire
resume now disposed i [] calls = ([], calls)
resume now disposed i (f ∷ fibers) calls =
    let rest = resume now disposed i fibers calls in
    if f.id == i then resumed now f fibers calls (fire now disposed f.at) else behind f rest

-- What can happen next: a caller gets the gate for an operation, the operation goes on by one
-- effect, a fiber goes on, or time passes.
pub data Event : Type 0 where
  trigger : Event
  cancel : Event
  operate : Event
  run : ℕ → Event
  passes : ℕ → Event

-- A caller waits while another operation holds the gate.
unfoldable pub enter : Gate → Gate → Gate
enter operation free = operation
enter operation held = held

module _ (ms : ℕ) where
  -- The next effect of the operation that holds the gate.
  unfoldable pub operate_at : Gate → Debouncer → Debouncer
  unfolding interrupt
  operate_at free d = d
  operate_at trigger_reads d = record d { gate = if d.disposed then free else trigger_takes }
  operate_at trigger_takes d = record d { gate = trigger_interrupts d.pending; pending = none }
  operate_at (trigger_interrupts o) d = record d {
    gate = trigger_forks;
    fibers = interrupt o d.fibers;
  }
  operate_at trigger_forks d = record d {
    gate = trigger_stores d.next_id;
    fibers = record { id = d.next_id; at = asleep (d.now + ms) } ∷ d.fibers;
    next_id = suc d.next_id;
  }
  operate_at (trigger_stores i) d = record d { gate = free; pending = some i }
  operate_at cancel_disposes d = record d { gate = cancel_takes; disposed = true }
  operate_at cancel_takes d = record d { gate = cancel_interrupts d.pending; pending = none }
  operate_at (cancel_interrupts o) d = record d { gate = free; fibers = interrupt o d.fibers }

  unfoldable pub step : Event → Debouncer → Debouncer
  unfolding operate_at enter resume
  step trigger d = record d { gate = enter trigger_reads d.gate }
  step cancel d = record d { gate = enter cancel_disposes d.gate }
  step operate d = operate_at d.gate d
  step (run i) d =
      let after = resume d.now d.disposed i d.fibers d.calls in
      record d { fibers = after.0; calls = after.1 }
  step (passes t) d = record d { now = d.now + t }

  unfoldable pub perform : List Event → Debouncer → Debouncer
  unfolding step
  perform [] d = d
  perform (e ∷ es) d = perform es (step e d)
