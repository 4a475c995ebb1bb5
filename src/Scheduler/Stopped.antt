-- ===== src/Scheduler/Stopped.antt =====
-- A shutdown ends the loops of all starts before it, without cutting a run short.
use mitools.Prelude.{
  ℕ, ◌≡◌, refl, Option, none, some, Text, List, [], ◌∷◌, map, All, All-append, Result, ok, err,
}
use mitools.Errors.{Cause}
use mitools.Scheduler.{
  ScheduledTask, Loop, Scheduler, LoopEvent, empty_scheduler, register, new_loop, probed, parsed,
  step_loop, start, shutdown,
}
use mitools.Scheduler.Loops.{
  IsEnded, IsTracked, step_loop-IsTracked, new_loops-IsTracked, stop_loops-IsTracked,
  step_loop-IsEnded, append-IsEnded, stop_loops-IsEnded, stopped-IsEnded,
}

-- What happens to a scheduler.
pub data SchedulerEvent : Type 0 where
  registers : ScheduledTask → ℕ → SchedulerEvent
  starts : SchedulerEvent
  shuts_down : SchedulerEvent
  loops : ℕ → LoopEvent → SchedulerEvent

module _ {Cron : Type 0} (parse : Text → Result Cause Cron) (next : Cron → ℕ → Option Cause) where
  abbrev pub scheduler_step : SchedulerEvent → Scheduler Cron → Scheduler Cron
  scheduler_step (registers task now) s = (register parse next task now s).1
  scheduler_step starts s = start s
  scheduler_step shuts_down s = shutdown s
  scheduler_step (loops i e) s = record s { loops = step_loop i e s.loops }

  abbrev pub scheduler_run : List SchedulerEvent → Scheduler Cron → Scheduler Cron
  scheduler_run [] s = s
  scheduler_run (e ∷ es) s = scheduler_run es (scheduler_step e s)

  probed-loops :
      (task : ScheduledTask) (cron : Cron) (o : Option Cause) (s : Scheduler Cron)
      → (probed parse next task cron o s).1.loops ≡ s.loops
  probed-loops task cron none s = refl
  probed-loops task cron (some cause) s = refl

  parsed-loops :
      (task : ScheduledTask) (now : ℕ) (r : Result Cause Cron) (s : Scheduler Cron)
      → (parsed parse next task now r s).1.loops ≡ s.loops
  parsed-loops task now (ok cron) s = probed-loops task cron (next cron now) s
  parsed-loops task now (err cause) s = refl

  register-loops :
      (task : ScheduledTask) (now : ℕ) (s : Scheduler Cron)
      → (register parse next task now s).1.loops ≡ s.loops
  unfolding register
  register-loops task now s = parsed-loops task now (parse task.schedule) s

  scheduler_step-IsTracked :
      (e : SchedulerEvent) (s : Scheduler Cron)
      → All IsTracked s.loops
      → All IsTracked (scheduler_step e s).loops
  unfolding start shutdown
  scheduler_step-IsTracked (registers task now) s h = rw (register-loops task now s) h
  scheduler_step-IsTracked starts s h =
      All-append IsTracked s.loops (map new_loop s.registered) h (new_loops-IsTracked s.registered)
  scheduler_step-IsTracked shuts_down s h = stop_loops-IsTracked s.loops h
  scheduler_step-IsTracked (loops i e) s h = step_loop-IsTracked i e s.loops h

  scheduler_run-IsTracked :
      (es : List SchedulerEvent) (s : Scheduler Cron)
      → All IsTracked s.loops
      → All IsTracked (scheduler_run es s).loops
  scheduler_run-IsTracked [] s h = h
  scheduler_run-IsTracked (e ∷ es) s h =
      scheduler_run-IsTracked es (scheduler_step e s) (scheduler_step-IsTracked e s h)

  scheduler_step-IsEnded :
      (e : SchedulerEvent) (before : List (Loop Cron)) (s : Scheduler Cron)
      → IsEnded before s.loops
      → IsEnded before (scheduler_step e s).loops
  unfolding start shutdown
  scheduler_step-IsEnded (registers task now) before s h = rw (register-loops task now s) h
  scheduler_step-IsEnded starts before s h =
      append-IsEnded before s.loops (map new_loop s.registered) h
  scheduler_step-IsEnded shuts_down before s h = stop_loops-IsEnded before s.loops h
  scheduler_step-IsEnded (loops i e) before s h = step_loop-IsEnded i e before s.loops h

  scheduler_run-IsEnded :
      (es : List SchedulerEvent) (before : List (Loop Cron)) (s : Scheduler Cron)
      → IsEnded before s.loops
      → IsEnded before (scheduler_run es s).loops
  scheduler_run-IsEnded [] before s h = h
  scheduler_run-IsEnded (e ∷ es) before s h =
      scheduler_run-IsEnded es before (scheduler_step e s) (scheduler_step-IsEnded e before s h)

  -- After a shutdown, at any point of any history of registrations, starts, shutdowns and steps of the
  -- loops: the loops that were there never begin another run, whatever happens next. Each has
  -- stopped, or goes on with the run that it had begun until that run ends by itself.
  pub shutdown-IsEnded :
      (history later : List SchedulerEvent)
      → let s = scheduler_run history empty_scheduler in
        IsEnded s.loops (scheduler_run later (shutdown s)).loops
  unfolding shutdown
  shutdown-IsEnded history later =
      let s = scheduler_run history empty_scheduler in
      scheduler_run-IsEnded later s.loops (shutdown s)
        (stopped-IsEnded s.loops (scheduler_run-IsTracked history empty_scheduler tt))
