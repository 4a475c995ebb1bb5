-- ===== src/Scheduler.antt =====
-- scheduling/Scheduler.ts: registration, and the loops of the tasks as steps of their fibers. Cron
-- expressions are the effect library's: a parameter parses them, and says whether one never matches.
pub mod Loops
pub mod Stopped
use mitools.Prelude.{
  ℕ, zero, suc, Bool, true, false, Option, none, some, List, [], ◌∷◌, ◌++◌, map, Text, codes, ltb,
  if◌then◌else◌, Result, ok, err,
}
use mitools.Errors.{Cause, cause_message}

pub record ScheduledTask : Type 0 where
  pub name : Text
  pub schedule : Text
  pub jitter_ms : Option ℕ
  pub run_on_startup : Option Bool

pub record InvalidScheduleError : Type 0 where
  pub task : Text
  pub schedule : Text
  pub cause : Cause

unfoldable pub invalid_message : InvalidScheduleError → Text
invalid_message e =
    codes "Invalid cron expression \""
    ++ e.schedule
    ++ codes "\" for task \""
    ++ e.task
    ++ codes "\": "
    ++ cause_message e.cause

pub record Registered (Cron : Type 0) : Type 0 where
  pub name : Text
  pub schedule : Text
  pub jitter_ms : ℕ
  pub cron : Cron
  pub run_on_startup : Bool

-- Where the loop of a task is: it sleeps until the cron matches, sleeps for the jitter, runs the task,
-- runs it with an interrupt that waits, or has ended.
pub data LoopPoint : Type 0 where
  asleep : LoopPoint
  jitter : LoopPoint
  running : LoopPoint
  finishing : LoopPoint
  stopped : LoopPoint

-- A forked loop; `runs` counts the runs that it has begun, and `tracked` says that the fiber is in
-- the reference `fibers`.
pub record Loop (Cron : Type 0) : Type 0 where
  pub task : Registered Cron
  pub at : LoopPoint
  pub runs : ℕ
  pub tracked : Bool

pub record Scheduler (Cron : Type 0) : Type 0 where
  pub registered : List (Registered Cron)
  pub loops : List (Loop Cron)

-- `fires` is a match of the cron expression, `dies` one that has no further match; the run ends with a
-- value or a cause, which is logged.
pub data LoopEvent : Type 0 where
  fires : LoopEvent
  jitter_ends : LoopEvent
  run_ends : LoopEvent
  dies : LoopEvent
  interrupted : LoopEvent

abbrev or_zero : Option ℕ → ℕ
or_zero none = 0
or_zero (some n) = n

abbrev or_false : Option Bool → Bool
or_false none = false
or_false (some b) = b

module _ {Cron : Type 0} where
  abbrev pub empty_scheduler : Scheduler Cron
  empty_scheduler = record { registered = []; loops = [] }

  module _ (parse : Text → Result Cause Cron) (next : Cron → ℕ → Option Cause) where
    abbrev invalid : ScheduledTask → Cause → InvalidScheduleError
    invalid task cause = record { task = task.name; schedule = task.schedule; cause = cause }

    abbrev add_task : ScheduledTask → Cron → Scheduler Cron → Scheduler Cron
    add_task task cron s = record s {
      registered =
          s.registered
          ++ record {
            name = task.name;
            schedule = task.schedule;
            jitter_ms = or_zero task.jitter_ms;
            cron = cron;
            run_on_startup = or_false task.run_on_startup;
          }
            ∷ [];
    }

    abbrev pub probed :
        ScheduledTask
        → Cron
        → Option Cause
        → Scheduler Cron
        → Result InvalidScheduleError (Unit {0}) × Scheduler Cron
    probed task cron (some cause) s = (err (invalid task cause), s)
    probed task cron none s = (ok tt, add_task task cron s)

    abbrev pub parsed :
        ScheduledTask
        → ℕ
        → Result Cause Cron
        → Scheduler Cron
        → Result InvalidScheduleError (Unit {0}) × Scheduler Cron
    parsed task now (err cause) s = (err (invalid task cause), s)
    parsed task now (ok cron) s = probed task cron (next cron now) s

    -- An expression must parse, and have a next match.
    unfoldable pub register :
        ScheduledTask → ℕ → Scheduler Cron → Result InvalidScheduleError (Unit {0}) × Scheduler Cron
    register task now s = parsed task now (parse task.schedule) s

  -- The start of `runOnce`: the jitter, or the task itself.
  unfoldable pub run_once : Loop Cron → Loop Cron
  run_once l =
      if ltb 0 l.task.jitter_ms
      then record l { at = jitter }
      else record l { at = running; runs = suc l.runs }

  unfoldable pub new_loop : Registered Cron → Loop Cron
  unfolding run_once
  new_loop task =
      let fresh : Loop Cron = record { task = task; at = asleep; runs = 0; tracked = true } in
      if task.run_on_startup then run_once fresh else fresh

  -- The task is uninterruptible, so an interrupt waits for the end of its run.
  unfoldable pub loop_at : LoopPoint → LoopEvent → Loop Cron → Loop Cron
  unfolding run_once
  loop_at asleep fires l = run_once l
  loop_at asleep dies l = record l { at = stopped }
  loop_at asleep interrupted l = record l { at = stopped }
  loop_at jitter jitter_ends l = record l { at = running; runs = suc l.runs }
  loop_at jitter interrupted l = record l { at = stopped }
  loop_at running run_ends l = record l { at = asleep }
  loop_at running interrupted l = record l { at = finishing }
  loop_at finishing run_ends l = record l { at = stopped }
  loop_at point e l = l

  unfoldable pub step_loop : ℕ → LoopEvent → List (Loop Cron) → List (Loop Cron)
  unfolding loop_at
  step_loop i e [] = []
  step_loop zero e (l ∷ ls) = loop_at l.at e l ∷ ls
  step_loop (suc i) e (l ∷ ls) = l ∷ step_loop i e ls

  unfoldable pub start : Scheduler Cron → Scheduler Cron
  unfolding new_loop
  start s = record s { loops = s.loops ++ map new_loop s.registered }

  -- `Ref.getAndSet(fibers, [])`, and the interrupt of each
  unfoldable pub stop_loop : Loop Cron → Loop Cron
  unfolding loop_at
  stop_loop l = if l.tracked then record (loop_at l.at interrupted l) { tracked = false } else l

  unfoldable pub shutdown : Scheduler Cron → Scheduler Cron
  unfolding stop_loop
  shutdown s = record s { loops = map stop_loop s.loops }

  abbrev name_and_schedule : Registered Cron → Text × Text
  name_and_schedule r = (r.name, r.schedule)

  unfoldable pub tasks : Scheduler Cron → List (Text × Text)
  tasks s = map name_and_schedule s.registered
