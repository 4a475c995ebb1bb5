-- ===== src/Debounce/Cancelled.antt =====
-- Nothing is called back once a cancel has been carried out.
use mitools.Prelude.{◌∙◌, ℕ, ◌≡◌, refl, Bool, true, Option, none, some, List, [], ◌∷◌}
use mitools.Debounce.{
  Gate, free, trigger_takes, trigger_interrupts, trigger_forks, trigger_stores, cancel_disposes,
  cancel_interrupts, Debouncer, make_debounced, interrupt, resume, operate_at, Event, trigger,
  cancel, operate, run, passes, step, perform,
}
use mitools.Debounce.Steps.{
  Tracked, watched, Allows, Inv, Tracked-none, step-Inv, perform-Inv, make_debounced-Inv,
}

-- A disposed debouncer without a fiber, which has called back at the times `calls`.
record IsOver (calls : List ℕ) (d : Debouncer) : Type 0 where
  inv : Inv d
  over : d.disposed ≡ true
  empty : d.fibers ≡ []
  same_calls : d.calls ≡ calls

module _ (ms : ℕ) where
  operate_at-over :
      (g : Gate) (d : Debouncer)
      → Allows g d.disposed
      → d.disposed ≡ true
      → d.fibers ≡ []
      → ((operate_at ms g d).disposed ≡ true)
        × ((operate_at ms g d).fibers ≡ [])
        × ((operate_at ms g d).calls ≡ d.calls)
  unfolding operate_at interrupt
  operate_at-over trigger_forks d a b e = cc
  operate_at-over trigger_takes d a b e = cc
  operate_at-over (trigger_interrupts o) d a b e = cc
  operate_at-over (trigger_stores i) d a b e = cc
  operate_at-over (cancel_interrupts none) d a b e = (b, e, refl)
  operate_at-over (cancel_interrupts (some i)) d a b e = (b, rw e, refl)
  operate_at-over cancel_disposes d a b e = (refl, e, refl)
  operate_at-over g d a b e = (b, e, refl)

  step-over :
      (e : Event) (d : Debouncer)
      → Inv d
      → d.disposed ≡ true
      → d.fibers ≡ []
      → ((step ms e d).disposed ≡ true)
        × ((step ms e d).fibers ≡ [])
        × ((step ms e d).calls ≡ d.calls)
  unfolding step resume
  step-over operate d i b e = operate_at-over d.gate d i.allows b e
  step-over (run j) d i b e = (b, rw e, rw e)
  step-over trigger d i b e = (b, e, refl)
  step-over cancel d i b e = (b, e, refl)
  step-over (passes t) d i b e = (b, e, refl)

  step-IsOver :
      (e : Event) (calls : List ℕ) (d : Debouncer) → IsOver calls d → IsOver calls (step ms e d)
  step-IsOver e calls d h =
      let after = step-over e d h.inv h.over h.empty in
      record {
        inv = step-Inv ms e d h.inv;
        over = after.0;
        empty = after.1;
        same_calls = after.2 ∙ h.same_calls;
      }

  perform-IsOver :
      (es : List Event) (calls : List ℕ) (d : Debouncer)
      → IsOver calls d
      → IsOver calls (perform ms es d)
  unfolding perform
  perform-IsOver [] calls d h = h
  perform-IsOver (e ∷ es) calls d h =
      perform-IsOver es calls (step ms e d) (step-IsOver e calls d h)

  -- Once a cancel has been carried out, in any interleaving of operations and callbacks, the
  -- debouncer never calls back again, whatever happens next.
  pub cancel-final :
      (now : ℕ) (before after : List Event)
      → (perform ms before (make_debounced now)).disposed ≡ true
      → (perform ms before (make_debounced now)).gate ≡ free
      → (perform ms after (perform ms before (make_debounced now))).calls
        ≡ (perform ms before (make_debounced now)).calls
  cancel-final now before after b g =
      let d = perform ms before (make_debounced now) in
      let inv = perform-Inv ms before (make_debounced now) (make_debounced-Inv now) in
      (perform-IsOver after d.calls d (record {
        inv = inv;
        over = b;
        empty =
            Tracked-none d.fibers
              (over-Tracked d.gate d.disposed d.pending d.fibers g b inv.tracked);
        same_calls = refl;
      })).same_calls
    where
      over-Tracked :
          (g : Gate) (b : Bool) (p : Option ℕ) (fibers : List _)
          → g ≡ free
          → b ≡ true
          → Tracked (watched g b p) fibers
          → Tracked none fibers
      over-Tracked g b p fibers eg eb t = rw (eg, eb) at t
