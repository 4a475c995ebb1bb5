-- ===== src/Tests/Debouncing.antt =====
-- A window of 50 milliseconds, and a callback that is about to run when a trigger comes.
use mitools.Prelude.{ℕ, ◌+◌, ◌≤◌, ◌<◌, ◌≡◌, refl, true, false, List, [], ◌∷◌, ◌++◌}
use mitools.Debounce.{
  cancel, operate, run, passes, Event, make_debounced, perform, step, operate_at, enter, resume,
  fire, interrupt, free,
}
use mitools.Debounce.Cancelled.{cancel-final}
use mitools.Debounce.Quiet.{trigger_whole, trigger-calls}

-- The first trigger's fiber has woken up and is about to call back.
abbrev burst : List Event
burst = trigger_whole ++ passes 50 ∷ run 0 ∷ run 0 ∷ []

burst_gate : (perform 50 burst (make_debounced 100)).gate ≡ free
unfolding perform step operate_at enter resume fire interrupt make_debounced
burst_gate = refl

burst_disposed : (perform 50 burst (make_debounced 100)).disposed ≡ false
unfolding perform step operate_at enter resume fire interrupt make_debounced
burst_disposed = refl

abbrev lull : List Event
lull = passes 30 ∷ run 1 ∷ passes 25 ∷ run 0 ∷ run 1 ∷ []

trigger-calls_example :
    let d = perform 50 burst (make_debounced 100) in
    let s = perform 50 lull (perform 50 trigger_whole d) in
    (s.now < d.now + 50 → s.calls ≡ d.calls)
    × (d.now + 50 ≤ s.now
        → (t : ℕ) × ((perform 50 (run d.next_id ∷ run d.next_id ∷ run d.next_id ∷ []) s).calls
            ≡ t ∷ d.calls)
          × (d.now + 50 ≤ t)
          × (t ≤ s.now))
trigger-calls_example =
    trigger-calls 50 100 burst lull burst_gate burst_disposed (tt, (tt, (tt, (tt, (tt, tt)))))

-- The second trigger interrupts the callback of the first, and its own comes after the window.
lull_calls :
    (perform 50
      (run 1 ∷ run 1 ∷ [])
      (perform 50 lull (perform 50 trigger_whole (perform 50 burst (make_debounced 100))))).calls
    ≡ 205 ∷ []
unfolding perform step operate_at enter resume fire interrupt make_debounced
lull_calls = refl

-- A cancel while the callback is about to run, which gets in before the interrupt.
abbrev cancelled : List Event
cancelled = burst ++ cancel ∷ operate ∷ run 0 ∷ operate ∷ operate ∷ []

cancelled_disposed : (perform 50 cancelled (make_debounced 100)).disposed ≡ true
unfolding perform step operate_at enter resume fire interrupt make_debounced
cancelled_disposed = refl

cancelled_gate : (perform 50 cancelled (make_debounced 100)).gate ≡ free
unfolding perform step operate_at enter resume fire interrupt make_debounced
cancelled_gate = refl

cancel-final_example :
    (perform 50 (burst ++ lull) (perform 50 cancelled (make_debounced 100))).calls
    ≡ (perform 50 cancelled (make_debounced 100)).calls
cancel-final_example =
    cancel-final 50 100 cancelled (burst ++ lull) cancelled_disposed cancelled_gate
