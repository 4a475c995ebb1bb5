-- ===== src/Debounce/Quiet.antt =====
-- The one call after the last trigger.
use mitools.Prelude.{
  arith, inl, inr, ap, ℕ, ◌+◌, ◌≤◌, ◌<◌, ◌≡◌, refl, true, false, List, [], ◌∷◌, leb, leb→le, ◌==◌,
  Bool-cases, All,
}
use mitools.Debounce.{
  asleep, awake, calling, Fiber, free, Debouncer, make_debounced, fire, resume, operate_at, Event,
  trigger, cancel, operate, run, passes, enter, step, perform,
}
use mitools.Debounce.Steps.{Inv, Tracked-interrupt, perform-Inv, make_debounced-Inv}

-- No operation is under way, and none is called: time passes and fibers run.
abbrev pub IsQuiet : Event → Type 0
IsQuiet (run i) = Unit
IsQuiet (passes t) = Unit
IsQuiet e = ⊥

-- The one fiber `i`, which sleeps until `w`, on its way to its call; and after the call.
data Stage (i w now : ℕ) (calls : List ℕ) : List Fiber → List ℕ → Type 0 where
  sleeps : Stage i w now calls (record { id = i; at = asleep w } ∷ []) calls
  wakes : w ≤ now → Stage i w now calls (record { id = i; at = awake } ∷ []) calls
  decides : w ≤ now → Stage i w now calls (record { id = i; at = calling } ∷ []) calls
  called : (t : ℕ) → w ≤ t → t ≤ now → Stage i w now calls [] (t ∷ calls)

-- What a run of the fiber `i` makes of the fibers and the calls.
abbrev resumes : ℕ → ℕ → List Fiber × List ℕ → List Fiber × List ℕ
resumes now i (fibers, all) = resume now false i fibers all

module _ {i w now : ℕ} {calls : List ℕ} where
  resume-Stage :
      (j : ℕ) {fibers : List Fiber} {all : List ℕ}
      → Stage i w now calls fibers all
      → Stage i w now calls (resume now false j fibers all).0 (resume now false j fibers all).1
  unfolding resume fire
  resume-Stage j sleeps = elim (Bool-cases (i == j)) [
    | inl e ↦ elim (Bool-cases (leb w now)) [
      | inl l ↦ rw (e, l) (wakes (leb→le w now l))
      | inr l ↦ rw (e, l) sleeps
    ]
    | inr e ↦ rw e sleeps
  ]
  resume-Stage j (wakes l) = elim (Bool-cases (i == j)) [
    | inl e ↦ rw e (decides l)
    | inr e ↦ rw e (wakes l)
  ]
  resume-Stage j (decides l) = elim (Bool-cases (i == j)) [
    | inl e ↦ rw e (called now l (omega arith))
    | inr e ↦ rw e (decides l)
  ]
  resume-Stage j (called t l k) = called t l k

  Stage-early :
      {fibers : List Fiber} {all : List ℕ} → Stage i w now calls fibers all → now < w → all ≡ calls
  Stage-early sleeps l = refl
  Stage-early (wakes k) l = refl
  Stage-early (decides k) l = refl
  Stage-early (called t k m) l = absurd (omega arith)

  Stage-later :
      (d : ℕ) {fibers : List Fiber} {all : List ℕ}
      → Stage i w now calls fibers all
      → Stage i w (now + d) calls fibers all
  Stage-later d sleeps = sleeps
  Stage-later d (wakes k) = wakes (omega arith)
  Stage-later d (decides k) = decides (omega arith)
  Stage-later d (called t k m) = called t k (omega arith)

  Stage-thrice :
      {fibers : List Fiber} {all : List ℕ}
      → Stage i w now calls fibers all
      → w ≤ now
      → (t : ℕ) × (resumes now i (resumes now i (resumes now i (fibers, all))) ≡ ([], t ∷ calls))
        × (w ≤ t)
        × (t ≤ now)
  unfolding resume fire
  Stage-thrice st l = go st (ground arith) (ground arith)
    where
      go :
          {fibers : List Fiber} {all : List ℕ}
          → Stage i w now calls fibers all
          → (i == i) ≡ true
          → leb w now ≡ true
          → (t : ℕ) × (resumes now i (resumes now i (resumes now i (fibers, all)))
              ≡ ([], t ∷ calls))
            × (w ≤ t)
            × (t ≤ now)
      go sleeps e f = (now, rw (e, f, e, e), l, omega arith)
      go (wakes k) e f = (now, rw (e, e), l, omega arith)
      go (decides k) e f = (now, rw e, l, omega arith)
      go (called t k m) e f = (t, refl, k, m)

record IsWaiting (i w : ℕ) (calls : List ℕ) (d : Debouncer) : Type 0 where
  live : d.disposed ≡ false
  stage : Stage i w d.now calls d.fibers d.calls

-- An uninterrupted trigger: the caller gets the gate, and the five effects follow.
abbrev pub trigger_whole : List Event
trigger_whole = trigger ∷ operate ∷ operate ∷ operate ∷ operate ∷ operate ∷ []

module _ (ms : ℕ) where
  module _ (i w : ℕ) (calls : List ℕ) where
    step-IsWaiting :
        (e : Event) (d : Debouncer)
        → IsQuiet e
        → IsWaiting i w calls d
        → IsWaiting i w calls (step ms e d)
    unfolding step
    step-IsWaiting (run j) d q h = record {
      live = h.live;
      stage = rw h.live (resume-Stage j h.stage);
    }
    step-IsWaiting (passes t) d q h = record { live = h.live; stage = Stage-later t h.stage }
    step-IsWaiting trigger d q h = absurd q
    step-IsWaiting cancel d q h = absurd q
    step-IsWaiting operate d q h = absurd q

    perform-IsWaiting :
        (es : List Event) (d : Debouncer)
        → All IsQuiet es
        → IsWaiting i w calls d
        → IsWaiting i w calls (perform ms es d)
    unfolding perform
    perform-IsWaiting [] d q h = h
    perform-IsWaiting (e ∷ es) d q h =
        perform-IsWaiting es (step ms e d) q.1 (step-IsWaiting e d q.0 h)

  trigger-IsWaiting :
      (d : Debouncer)
      → Inv d
      → d.gate ≡ free
      → d.disposed ≡ false
      → IsWaiting d.next_id (d.now + ms) d.calls (perform ms trigger_whole d)
  unfolding perform step operate_at enter
  trigger-IsWaiting d h g b =
      rw (g, b)
        (record {
          live = refl;
          stage = rw (Tracked-interrupt d.pending d.fibers (rw (g, b) at h.tracked)) sleeps;
        })

  -- After an uninterrupted trigger with no cancel before it, and while no further operation comes:
  -- nothing is called back before `ms` have passed, and once they have and the fiber has had three
  -- steps, `onChange` has been called exactly once more, at a time when they had passed.
  pub trigger-calls :
      (now : ℕ) (before quiet : List Event)
      → (perform ms before (make_debounced now)).gate ≡ free
      → (perform ms before (make_debounced now)).disposed ≡ false
      → All IsQuiet quiet
      → let d = perform ms before (make_debounced now) in
        let s = perform ms quiet (perform ms trigger_whole d) in
        (s.now < d.now + ms → s.calls ≡ d.calls)
        × (d.now + ms ≤ s.now
            → (t : ℕ) × ((perform ms (run d.next_id ∷ run d.next_id ∷ run d.next_id ∷ []) s).calls
                ≡ t ∷ d.calls)
              × (d.now + ms ≤ t)
              × (t ≤ s.now))
  unfolding perform step
  trigger-calls now before quiet g b q =
      let d = perform ms before (make_debounced now) in
      let inv = perform-Inv ms before (make_debounced now) (make_debounced-Inv now) in
      let s = perform ms quiet (perform ms trigger_whole d) in
      let w =
        perform-IsWaiting d.next_id (d.now + ms) d.calls quiet _ q (trigger-IsWaiting d inv g b) in
      (
        Stage-early w.stage,
        λ l. let r = Stage-thrice w.stage l in (r.0, rw w.live (ap (λ x. x.1) r.1), r.2, r.3),
      )
