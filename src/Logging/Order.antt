-- ===== src/Logging/Order.antt =====
-- What the sinks see of everything that happens to a logger, in its order.
use mitools.Prelude.{
  inl, inr, sym, ◌∙◌, ap, ℕ, ◌≡◌, Bool, true, false, Bool-cases, Option, none, some, List, [], ◌∷◌,
  ◌++◌, map, Text, if◌then◌else◌,
}
use mitools.Logging.{LogItem, reaches}
use mitools.Logging.Service.{
  Program, done, fails, logs, LoggerOptions, Picked, pick, LoggerService, threshold, report,
  emit_with, emit_inside, emit, step_hook, run_hook, print_directly, emit_unsafe, close,
}
use mitools.Logging.Feeds.{feed, shown, emitted, feeds-nil, write_sinks-feed, then-feed, emit-feed}

abbrev next_item : Program → List LogItem
next_item (logs item p) = item ∷ []
next_item p = []

abbrev pub next_items : Option Picked → List LogItem
next_items none = []
next_items (some (before, f, after)) = next_item f.program

-- What happens to a logger: an emit, an emit for a synchronous caller, a step of a hook, its end.
pub data LoggerEvent : Type 0 where
  emits : Bool → LogItem → LoggerEvent
  emits_unsafe : Bool → LogItem → LoggerEvent
  runs : ℕ → LoggerEvent
  closes : LoggerEvent

abbrev event_items : {S : Type 0} → LoggerOptions → LoggerEvent → LoggerService S → List LogItem
event_items options (emits inside_hook item) s = emitted options inside_hook item
event_items options (emits_unsafe inside_hook item) s =
    if s.closed then [] else emitted options inside_hook item
event_items options (runs k) s = next_items (pick k s.hooks)
event_items options closes s = []

module _ {S : Type 0} (iso : ℕ → Text) (options : LoggerOptions) where
  abbrev pub logger_step : LoggerEvent → LoggerService S → LoggerService S
  logger_step (emits inside_hook item) s = emit options inside_hook item s
  logger_step (emits_unsafe inside_hook item) s = emit_unsafe iso options inside_hook item s
  logger_step (runs k) s = run_hook options k s
  logger_step closes s = close s

  abbrev pub logger_run : List LoggerEvent → LoggerService S → LoggerService S
  logger_run [] s = s
  logger_run (e ∷ es) s = logger_run es (logger_step e s)

  -- The items that go out, one event after the other.
  abbrev pub items_of : List LoggerEvent → LoggerService S → List LogItem
  items_of [] s = []
  items_of (e ∷ es) s = event_items options e s ++ items_of es (logger_step e s)

  step_hook-feed :
      (o : Option Picked) (s : LoggerService S)
      → (step_hook options o s).sinks ≡ map (feed (shown options (next_items o))) s.sinks
  unfolding report emit_inside emit_with
  step_hook-feed none s = sym (feeds-nil s.sinks)
  step_hook-feed (some (before, f, after)) s = go f.program
    where
      go :
          (p : Program)
          → (step_hook options
              (some (before, record { what = f.what; program = p }, after))
              s).sinks
            ≡ map (feed (shown options (next_item p))) s.sinks
      go done = sym (feeds-nil s.sinks)
      go (fails cause) = sym (feeds-nil s.sinks)
      go (logs item p) = write_sinks-feed options item _

  print_directly-sinks :
      (item : LogItem) (s : LoggerService S) → (print_directly iso options item s).sinks ≡ s.sinks
  unfolding print_directly
  print_directly-sinks item s = elim (Bool-cases (reaches (threshold options.level) item.level)) [
    | inl r ↦ rw r
    | inr r ↦ rw r
  ]

  unsafe-feed :
      (inside_hook : Bool) (item : LogItem) (s : LoggerService S) (closed : Bool)
      → (if closed
          then print_directly iso options item s
          else emit options inside_hook item s).sinks
        ≡ map
            (feed (shown options (if closed then [] else emitted options inside_hook item)))
            s.sinks
  unsafe-feed inside_hook item s true = print_directly-sinks item s ∙ sym (feeds-nil s.sinks)
  unsafe-feed inside_hook item s false = emit-feed options inside_hook item s

  logger_step-feed :
      (e : LoggerEvent) (s : LoggerService S)
      → (logger_step e s).sinks ≡ map (feed (shown options (event_items options e s))) s.sinks
  unfolding run_hook emit_unsafe close
  logger_step-feed (emits inside_hook item) s = emit-feed options inside_hook item s
  logger_step-feed (emits_unsafe inside_hook item) s = unsafe-feed inside_hook item s s.closed
  logger_step-feed (runs k) s = step_hook-feed (pick k s.hooks) s
  logger_step-feed closes s = sym (feeds-nil s.sinks)

  -- After any emits, steps of hooks and the end of the scope, in any order, every sink has the state
  -- that it would have alone when given the items at or above the level, in the order in which they
  -- went out: those that a tap logs before its item, and those of the hooks as their fibers come to
  -- them. No failure of a tap, hook or other sink makes a sink miss one.
  pub logger_run-feed :
      (es : List LoggerEvent) (s : LoggerService S)
      → (logger_run es s).sinks ≡ map (feed (shown options (items_of es s))) s.sinks
  logger_run-feed [] s = sym (feeds-nil s.sinks)
  logger_run-feed (e ∷ es) s =
      then-feed options (event_items options e s) (items_of es (logger_step e s)) s.sinks _ (
        logger_run-feed es (logger_step e s)
        ∙ ap (map (feed (shown options (items_of es (logger_step e s))))) (logger_step-feed e s))
