-- ===== src/Tests/Processes.antt =====
-- Three calls that share two permits: one that blows its budget, one that is interrupted, and one that
-- waits.
use mitools.Prelude.{
  ℕ, ◌+◌, ◌≤◌, ◌≡◌, refl, Bool, true, false, List, [], ◌∷◌, All, map, Text, codes,
}
use mitools.Proc.{exit}
use mitools.Proc.Watch.{captured, settled, join_captured}
use mitools.Proc.Run.{
  RunEvent, takes, proceeds, interrupts, budget_ends, grace_ends, spawned, exits, out_done,
  error_out_done, step_run, run_step, proceed, interrupt_run, holds_permit, sigterm, sigkill,
  Signal,
}
use mitools.Proc.Run.Joins.{IsRun}
use mitools.Proc.Run.Slots.{new_run, step_runs, holders, live_count, step_runs-live_count}

abbrev calls : List (List Text × Bool × Bool)
calls =
    (codes "lsof" ∷ [], false, true)
    ∷ (codes "git" ∷ codes "fetch" ∷ [], true, false)
    ∷ (codes "true" ∷ [], false, false)
    ∷ []

abbrev schedule : List (ℕ × RunEvent)
schedule =
    (0, takes)
    ∷ (1, takes)
    ∷ (2, takes)
    ∷ (0, proceeds)
    ∷ (0, spawned)
    ∷ (1, proceeds)
    ∷ (1, spawned)
    ∷ (0, proceeds)
    ∷ (1, proceeds)
    ∷ (0, budget_ends)
    ∷ (0, exits (exit 137))
    ∷ (0, out_done (captured []))
    ∷ (0, proceeds)
    ∷ (1, interrupts)
    ∷ (0, error_out_done (captured []))
    ∷ (1, grace_ends)
    ∷ (0, proceeds)
    ∷ (2, takes)
    ∷ []

step_runs-live_count_example :
    let after = step_runs schedule (map new_run calls) 2 in
    (holders after.0 + after.1 ≡ 2)
    × (live_count after.0 ≤ 2)
    × All (λ r. IsRun r.phase r.child) after.0
step_runs-live_count_example = step_runs-live_count schedule calls 2

-- The first call has returned, the second one has killed its group and waits, and the third one has got
-- the permit that the first one gave back.
abbrev shapes : List (Bool × List Signal)
shapes = (false, sigkill ∷ []) ∷ (true, sigterm ∷ sigkill ∷ []) ∷ (true, []) ∷ []

schedule_run :
    map (λ r. (holds_permit r.phase, r.signals)) (step_runs schedule (map new_run calls) 2).0
    ≡ shapes
unfolding step_run run_step holds_permit proceed interrupt_run settled join_captured
schedule_run = refl
