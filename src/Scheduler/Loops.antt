-- ===== src/Scheduler/Loops.antt =====
-- Loops that a shutdown has ended, and loops that a shutdown can reach.
use mitools.Prelude.{
  inl, inr, ◌⊎◌, ℕ, zero, suc, ◌≡◌, refl, ◌∙◌, Bool, true, false, Bool-cases, List, [], ◌∷◌, ◌++◌,
  map, ltb, All, if◌then◌else◌,
}
use mitools.Scheduler.{
  Registered, LoopPoint, asleep, jitter, running, finishing, stopped, Loop, LoopEvent, fires,
  jitter_ends, run_ends, dies, interrupted, run_once, new_loop, loop_at, step_loop, stop_loop,
}

-- The loop begins no run any more.
abbrev pub IsEnding : LoopPoint → Type 0
IsEnding finishing = Unit
IsEnding stopped = Unit
IsEnding point = ⊥

module _ {Cron : Type 0} where
  -- The loops of `now` that were there at `before` have begun no run since, and begin none.
  abbrev pub IsEnded : List (Loop Cron) → List (Loop Cron) → Type 0
  IsEnded [] now = Unit
  IsEnded (l ∷ before) [] = ⊥
  IsEnded (l ∷ before) (m ∷ now) = (m.runs ≡ l.runs) × IsEnding m.at × IsEnded before now

  loop_at-IsEnding :
      (point : LoopPoint) (e : LoopEvent) (l : Loop Cron)
      → IsEnding point
      → IsEnding l.at
      → ((loop_at point e l).runs ≡ l.runs) × IsEnding (loop_at point e l).at
  unfolding loop_at
  loop_at-IsEnding finishing run_ends l h k = (refl, tt)
  loop_at-IsEnding finishing fires l h k = (refl, k)
  loop_at-IsEnding finishing jitter_ends l h k = (refl, k)
  loop_at-IsEnding finishing dies l h k = (refl, k)
  loop_at-IsEnding finishing interrupted l h k = (refl, k)
  loop_at-IsEnding stopped e l h k = (refl, k)
  loop_at-IsEnding asleep e l h k = absurd h
  loop_at-IsEnding jitter e l h k = absurd h
  loop_at-IsEnding running e l h k = absurd h

  -- An interrupt ends a loop, and the run in flight, if there is one, goes on.
  loop_at-interrupted :
      (point : LoopPoint) (l : Loop Cron)
      → l.at ≡ point
      → ((loop_at point interrupted l).runs ≡ l.runs) × IsEnding (loop_at point interrupted l).at
  unfolding loop_at
  loop_at-interrupted asleep l e = (refl, tt)
  loop_at-interrupted jitter l e = (refl, tt)
  loop_at-interrupted running l e = (refl, tt)
  loop_at-interrupted finishing l e = (refl, rw e tt)
  loop_at-interrupted stopped l e = (refl, rw e tt)

  -- A loop that is not tracked is ending.
  abbrev pub IsTracked : Loop Cron → Type 0
  IsTracked l = (l.tracked ≡ true) ⊎ IsEnding l.at

  stop_loop-IsEnding :
      (l : Loop Cron) → IsTracked l → ((stop_loop l).runs ≡ l.runs) × IsEnding (stop_loop l).at
  unfolding stop_loop
  stop_loop-IsEnding l h = go l.tracked h
    where
      go :
          (b : Bool)
          → (b ≡ true) ⊎ IsEnding l.at
          → let m = if b then record (loop_at l.at interrupted l) { tracked = false } else l in
            (m.runs ≡ l.runs) × IsEnding m.at
      go true k = loop_at-interrupted l.at l refl
      go false (inr k) = (refl, k)
      go false (inl e) = cc e

  run_once-tracked : (l : Loop Cron) → (run_once l).tracked ≡ l.tracked
  unfolding run_once
  run_once-tracked l = elim (Bool-cases (ltb 0 l.task.jitter_ms)) [ inl e ↦ rw e | inr e ↦ rw e ]

  loop_at-tracked :
      (point : LoopPoint) (e : LoopEvent) (l : Loop Cron) → (loop_at point e l).tracked ≡ l.tracked
  unfolding loop_at
  loop_at-tracked asleep fires l = run_once-tracked l
  loop_at-tracked asleep dies l = refl
  loop_at-tracked asleep interrupted l = refl
  loop_at-tracked jitter jitter_ends l = refl
  loop_at-tracked jitter interrupted l = refl
  loop_at-tracked running run_ends l = refl
  loop_at-tracked running interrupted l = refl
  loop_at-tracked finishing run_ends l = refl
  loop_at-tracked point e l = refl

  loop_at-IsTracked : (e : LoopEvent) (l : Loop Cron) → IsTracked l → IsTracked (loop_at l.at e l)
  loop_at-IsTracked e l (inl t) = inl (loop_at-tracked l.at e l ∙ t)
  loop_at-IsTracked e l (inr k) = inr (loop_at-IsEnding l.at e l k k).1

  new_loop-IsTracked : (r : Registered Cron) → IsTracked (new_loop r)
  unfolding new_loop
  new_loop-IsTracked r = go r.run_on_startup
    where
      fresh : Loop Cron
      fresh = record { task = r; at = asleep; runs = 0; tracked = true }

      go : (b : Bool) → IsTracked (if b then run_once fresh else fresh)
      go true = inl (run_once-tracked fresh)
      go false = inl refl

  pub step_loop-IsTracked :
      (i : ℕ) (e : LoopEvent) (ls : List (Loop Cron))
      → All IsTracked ls
      → All IsTracked (step_loop i e ls)
  unfolding step_loop
  step_loop-IsTracked i e [] h = tt
  step_loop-IsTracked zero e (l ∷ ls) h = (loop_at-IsTracked e l h.0, h.1)
  step_loop-IsTracked (suc i) e (l ∷ ls) h = (h.0, step_loop-IsTracked i e ls h.1)

  pub new_loops-IsTracked : (rs : List (Registered Cron)) → All IsTracked (map new_loop rs)
  new_loops-IsTracked [] = tt
  new_loops-IsTracked (r ∷ rs) = (new_loop-IsTracked r, new_loops-IsTracked rs)

  pub stop_loops-IsTracked :
      (ls : List (Loop Cron)) → All IsTracked ls → All IsTracked (map stop_loop ls)
  stop_loops-IsTracked [] h = tt
  stop_loops-IsTracked (l ∷ ls) h = (inr (stop_loop-IsEnding l h.0).1, stop_loops-IsTracked ls h.1)

  -- What each event does to loops that have ended.
  pub step_loop-IsEnded :
      (i : ℕ) (e : LoopEvent) (before now : List (Loop Cron))
      → IsEnded before now
      → IsEnded before (step_loop i e now)
  unfolding step_loop
  step_loop-IsEnded i e [] now h = tt
  step_loop-IsEnded i e (l ∷ before) [] h = absurd h
  step_loop-IsEnded zero e (l ∷ before) (m ∷ now) h =
      let one = loop_at-IsEnding m.at e m h.1 h.1 in (one.0 ∙ h.0, one.1, h.2)
  step_loop-IsEnded (suc i) e (l ∷ before) (m ∷ now) h =
      (h.0, h.1, step_loop-IsEnded i e before now h.2)

  pub append-IsEnded :
      (before now more : List (Loop Cron)) → IsEnded before now → IsEnded before (now ++ more)
  append-IsEnded [] now more h = tt
  append-IsEnded (l ∷ before) [] more h = absurd h
  append-IsEnded (l ∷ before) (m ∷ now) more h = (h.0, h.1, append-IsEnded before now more h.2)

  pub stop_loops-IsEnded :
      (before now : List (Loop Cron)) → IsEnded before now → IsEnded before (map stop_loop now)
  stop_loops-IsEnded [] now h = tt
  stop_loops-IsEnded (l ∷ before) [] h = absurd h
  stop_loops-IsEnded (l ∷ before) (m ∷ now) h =
      let one = stop_loop-IsEnding m (inr h.1) in
      (one.0 ∙ h.0, one.1, stop_loops-IsEnded before now h.2)

  pub stopped-IsEnded : (ls : List (Loop Cron)) → All IsTracked ls → IsEnded ls (map stop_loop ls)
  stopped-IsEnded [] h = tt
  stopped-IsEnded (l ∷ ls) h =
      let one = stop_loop-IsEnding l h.0 in (one.0, one.1, stopped-IsEnded ls h.1)
