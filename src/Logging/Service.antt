-- ===== src/Logging/Service.antt =====
-- logging/Logger.ts: makeService. A tap or hook is the program of the log calls that it makes, with
-- its end; a hook runs in a fiber of its own, one log call at a time. An emit is one step.
use mitools.Prelude.{
  ℕ, zero, suc, Bool, true, false, not, Option, none, some, List, [], ◌∷◌, ◌++◌, Text, codes,
  if◌then◌else◌,
}
use mitools.Errors.{Cause}
use mitools.Logging.{
  LogLevel, info, warn, error, reaches, LogItem, LogNotification, to_notification,
}
use mitools.Logging.Sinks.{LogSink, format_console_line}

-- What client code does with the logger, until it ends or fails with a defect.
pub data Program : Type 0 where
  done : Program
  fails : Cause → Program
  logs : LogItem → Program → Program

pub record LoggerOptions : Type 0 where
  pub level : Option LogLevel
  pub on_error : Option (LogNotification → Program)
  pub on_warn : Option (LogNotification → Program)
  pub on_log : Option (LogItem → Program)

pub record HookFiber : Type 0 where
  pub what : Text
  pub program : Program

-- A sink with its state.
pub record Running (S : Type 0) : Type 0 where
  pub sink : LogSink S
  pub state : S

-- `reports` are the failures on the console, `printed` the lines of a closed logger, both in order.
pub record LoggerService (S : Type 0) : Type 0 where
  pub sinks : List (Running S)
  pub hooks : List HookFiber
  pub reports : List (Text × Cause)
  pub closed : Bool
  pub printed : List (LogLevel × Text)

unfoldable pub threshold : Option LogLevel → LogLevel
threshold none = info
threshold (some level) = level

-- `notification` for the level of the item, if there is a hook for it
unfoldable pub hook_for : LoggerOptions → LogItem → List HookFiber
unfolding to_notification
hook_for options item = by_level item.level options.on_error options.on_warn
  where
    hook : Text → Option (LogNotification → Program) → List HookFiber
    hook what none = []
    hook what (some h) = record { what = what; program = h (to_notification item) } ∷ []

    by_level :
        LogLevel
        → Option (LogNotification → Program)
        → Option (LogNotification → Program)
        → List HookFiber
    by_level error on_error on_warn = hook (codes "onError hook") on_error
    by_level warn on_error on_warn = hook (codes "onWarn hook") on_warn
    by_level level on_error on_warn = []

-- The set of the fibers runs none after the end of its scope.
abbrev pub if_open : Bool → List HookFiber → List HookFiber
if_open true fibers = []
if_open false fibers = fibers

-- A fiber with those before and those after it.
abbrev pub Picked : Type 0
Picked = List HookFiber × HookFiber × List HookFiber

abbrev pub behind : HookFiber → Option Picked → Option Picked
behind f none = none
behind f (some (before, h, after)) = some (f ∷ before, h, after)

-- The fiber that the scheduler picks, by its place among the hooks, the last one from there on.
unfoldable pub pick : ℕ → List HookFiber → Option Picked
pick k [] = none
pick k (f ∷ []) = some ([], f, [])
pick zero (f ∷ g ∷ fs) = some ([], f, g ∷ fs)
pick (suc k) (f ∷ g ∷ fs) = behind f (pick k (g ∷ fs))

module _ {S : Type 0} where
  unfoldable pub report : Text → Cause → LoggerService S → LoggerService S
  report what cause s = record s { reports = s.reports ++ (what, cause) ∷ [] }

  abbrev pub written : Running S → Option Cause × S → Running S
  written r (failure, state) = record { sink = r.sink; state = state }

  abbrev pub failure_of : Option Cause × S → List (Text × Cause)
  failure_of (none, state) = []
  failure_of (some cause, state) = (codes "sink", cause) ∷ []

  -- Each sink in turn, whatever the ones before it did.
  unfoldable pub write_all : LogItem → List (Running S) → List (Running S) × List (Text × Cause)
  write_all item [] = ([], [])
  write_all item (r ∷ rs) =
      let one = r.sink.write item r.state in
      let rest = write_all item rs in (written r one ∷ rest.0, failure_of one ++ rest.1)

  unfoldable pub write_sinks : LoggerOptions → LogItem → LoggerService S → LoggerService S
  unfolding write_all threshold
  write_sinks options item s =
      let all = write_all item s.sinks in
      if reaches (threshold options.level) item.level
      then record s { sinks = all.0; reports = s.reports ++ all.1 }
      else s

  -- `emit` when `tap` is what running the tap does.
  unfoldable pub emit_with :
      (LogItem → LoggerService S → LoggerService S)
      → LoggerOptions
      → Bool
      → LogItem
      → LoggerService S
      → LoggerService S
  unfolding write_sinks hook_for
  emit_with tap options inside_hook item s =
      let tapped = if not inside_hook then tap item s else s in
      let sent = write_sinks options item tapped in
      let starting = if_open sent.closed (hook_for options item) in
      if inside_hook then sent else record sent { hooks = sent.hooks ++ starting }

  -- A log call from a tap or hook runs no tap.
  unfoldable pub emit_inside : LoggerOptions → LogItem → LoggerService S → LoggerService S
  unfolding emit_with
  emit_inside options = emit_with (λ item s. s) options true

  unfoldable pub run_program : LoggerOptions → Text → Program → LoggerService S → LoggerService S
  unfolding emit_inside report
  run_program options what done s = s
  run_program options what (fails cause) s = report what cause s
  run_program options what (logs item p) s = run_program options what p (emit_inside options item s)

  abbrev pub run_tap :
      LoggerOptions → Option (LogItem → Program) → LogItem → LoggerService S → LoggerService S
  run_tap options none item s = s
  run_tap options (some tap) item s = run_program options (codes "onLog hook") (tap item) s

  unfoldable pub emit : LoggerOptions → Bool → LogItem → LoggerService S → LoggerService S
  unfolding emit_with run_program
  emit options = emit_with (run_tap options options.on_log) options

  -- One step of a hook's fiber: a log call, a report, or its end.
  abbrev pub step_program :
      LoggerOptions
      → Text
      → Program
      → List HookFiber
      → List HookFiber
      → LoggerService S
      → LoggerService S
  step_program options what done before after s = record s { hooks = before ++ after }
  step_program options what (fails cause) before after s =
      report what cause (record s { hooks = before ++ after })
  step_program options what (logs item p) before after s =
      emit_inside options item
        (record s { hooks = before ++ record { what = what; program = p } ∷ after })

  abbrev pub step_hook : LoggerOptions → Option Picked → LoggerService S → LoggerService S
  step_hook options none s = s
  step_hook options (some (before, f, after)) s =
      step_program options f.what f.program before after s

  unfoldable pub run_hook : LoggerOptions → ℕ → LoggerService S → LoggerService S
  unfolding pick emit_inside report
  run_hook options k s = step_hook options (pick k s.hooks) s

  -- The line of a closed logger, on the console.
  unfoldable pub print_directly :
      (ℕ → Text) → LoggerOptions → LogItem → LoggerService S → LoggerService S
  unfolding threshold format_console_line
  print_directly iso options item s =
      if reaches (threshold options.level) item.level
      then record s { printed = s.printed ++ (item.level, format_console_line iso item) ∷ [] }
      else s

  -- `emit` for synchronous callers; after the end of the scope the line goes to the console.
  unfoldable pub emit_unsafe :
      (ℕ → Text) → LoggerOptions → Bool → LogItem → LoggerService S → LoggerService S
  unfolding emit print_directly
  emit_unsafe iso options inside_hook item s =
      if s.closed then print_directly iso options item s else emit options inside_hook item s

  -- The end of the layer's scope: the finalizer sets the flag, and the set of fibers interrupts them.
  unfoldable pub close : LoggerService S → LoggerService S
  close s = record s { closed = true; hooks = [] }

  abbrev flush_one : Option (S → S) → S → S
  flush_one none state = state
  flush_one (some f) state = f state

  unfoldable pub flush_sinks : List (Running S) → List (Running S)
  flush_sinks [] = []
  flush_sinks (r ∷ rs) =
      record { sink = r.sink; state = flush_one r.sink.flush r.state } ∷ flush_sinks rs

  -- `flush`, when the scheduler makes these picks until no hook is left, if they are enough.
  unfoldable pub await_empty : LoggerOptions → List ℕ → LoggerService S → LoggerService S
  unfolding run_hook
  await_empty options [] s = s
  await_empty options (k ∷ ks) s = await_empty options ks (run_hook options k s)

  abbrev pub when_empty : List HookFiber → LoggerService S → Option (LoggerService S)
  when_empty [] s = some (record s { sinks = flush_sinks s.sinks })
  when_empty (f ∷ fs) s = none

  unfoldable pub flush : LoggerOptions → List ℕ → LoggerService S → Option (LoggerService S)
  unfolding await_empty flush_sinks
  flush options picks s = let waited = await_empty options picks s in when_empty waited.hooks waited
