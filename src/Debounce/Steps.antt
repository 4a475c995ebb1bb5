-- ===== src/Debounce/Steps.antt =====
-- What every interleaving of the operations and the callbacks keeps.
use mitools.Prelude.{
  arith, inl, inr, ℕ, ◌≡◌, refl, Bool, true, false, Option, none, some, List, [], ◌∷◌, ◌==◌,
  if◌then◌else◌, Bool-cases,
}
use mitools.Debounce.{
  Fiber, Gate, free, trigger_reads, trigger_takes, trigger_interrupts, trigger_forks,
  trigger_stores, cancel_disposes, cancel_takes, cancel_interrupts, Debouncer, make_debounced,
  interrupt, fire, Progress, goes_on, ends, calls_back, resumed, resume, operate_at, Event, trigger,
  cancel, operate, run, passes, enter, step, perform,
}

-- The fibers are none, or the one that is watched.
abbrev pub Tracked : Option ℕ → List Fiber → Type 0
Tracked o [] = Unit
Tracked none (f ∷ fibers) = ⊥
Tracked (some i) (f ∷ fibers) = (f.id ≡ i) × (fibers ≡ [])

-- The fiber that the state still refers to, if there is one.
abbrev pub watched : Gate → Bool → Option ℕ → Option ℕ
watched trigger_takes b p = p
watched (trigger_interrupts o) b p = o
watched trigger_forks b p = none
watched (trigger_stores i) b p = some i
watched cancel_takes b p = p
watched (cancel_interrupts o) b p = o
watched outside b p = if b then none else p

-- What the holder of the gate knows of `disposed`.
abbrev pub Allows : Gate → Bool → Type 0
Allows trigger_takes b = b ≡ false
Allows (trigger_interrupts o) b = b ≡ false
Allows trigger_forks b = b ≡ false
Allows (trigger_stores i) b = b ≡ false
Allows cancel_takes b = b ≡ true
Allows (cancel_interrupts o) b = b ≡ true
Allows outside b = Unit

pub record Inv (d : Debouncer) : Type 0 where
  pub allows : Allows d.gate d.disposed
  pub tracked : Tracked (watched d.gate d.disposed d.pending) d.fibers

pub Tracked-none : (fibers : List Fiber) → Tracked none fibers → fibers ≡ []
Tracked-none [] h = refl
Tracked-none (f ∷ fibers) h = absurd h

Tracked-pending :
    (b : Bool) (o : Option ℕ) (fibers : List Fiber)
    → Tracked (if b then none else o) fibers
    → Tracked o fibers
Tracked-pending true o fibers h = rw (Tracked-none fibers h) tt
Tracked-pending false o fibers h = h

Tracked-resumed :
    (now : ℕ) (o : Option ℕ) (f : Fiber) (calls : List ℕ) (p : Progress)
    → Tracked o (f ∷ [])
    → Tracked o (resumed now f [] calls p).0
Tracked-resumed now none f calls p h = absurd h
Tracked-resumed now (some i) f calls (goes_on q) h = (h.0, refl)
Tracked-resumed now (some i) f calls ends h = tt
Tracked-resumed now (some i) f calls calls_back h = tt

pub Tracked-resume :
    (now : ℕ) (b : Bool) (i : ℕ) (o : Option ℕ) (fibers : List Fiber) (calls : List ℕ)
    → Tracked o fibers
    → Tracked o (resume now b i fibers calls).0
unfolding resume
Tracked-resume now b i o [] calls h = tt
Tracked-resume now b i none (f ∷ fibers) calls h = absurd h
Tracked-resume now b i (some j) (f ∷ fibers) calls h = elim (Bool-cases (f.id == i)) [
  | inl e ↦ rw (e, h.1) (Tracked-resumed now (some j) f calls (fire now b f.at) (h.0, refl))
  | inr e ↦ rw (e, h.1) (h.0, refl)
]

pub Tracked-interrupt :
    (o : Option ℕ) (fibers : List Fiber) → Tracked o fibers → interrupt o fibers ≡ []
unfolding interrupt
Tracked-interrupt none [] h = refl
Tracked-interrupt none (f ∷ fibers) h = absurd h
Tracked-interrupt (some i) [] h = refl
Tracked-interrupt (some i) (f ∷ fibers) h = rw h.1 (ground (arith, h.0))

reads-Inv :
    (b : Bool) (p : Option ℕ) (fibers : List Fiber)
    → Tracked (if b then none else p) fibers
    → Allows (if b then free else trigger_takes) b
      × Tracked (watched (if b then free else trigger_takes) b p) fibers
reads-Inv true p fibers t = (tt, t)
reads-Inv false p fibers t = (refl, t)

enter-Inv :
    (b : Bool) (p : Option ℕ) (fibers : List Fiber) (operation g : Gate)
    → Allows operation b
    → (Tracked (watched free b p) fibers → Tracked (watched operation b p) fibers)
    → Allows g b
    → Tracked (watched g b p) fibers
    → Allows (enter operation g) b × Tracked (watched (enter operation g) b p) fibers
unfolding enter
enter-Inv b p fibers operation free ok keeps a t = (ok, keeps t)
enter-Inv b p fibers operation g ok keeps a t = (a, t)

module _ (ms : ℕ) where
  operate_at-Inv :
      (g : Gate) (d : Debouncer)
      → Inv d
      → Allows g d.disposed
      → Tracked (watched g d.disposed d.pending) d.fibers
      → Inv (operate_at ms g d)
  unfolding operate_at
  operate_at-Inv free d h a t = h
  operate_at-Inv trigger_reads d h a t =
      let after = reads-Inv d.disposed d.pending d.fibers t in
      record { allows = after.0; tracked = after.1 }
  operate_at-Inv trigger_takes d h a t = record { allows = a; tracked = t }
  operate_at-Inv (trigger_interrupts o) d h a t = record {
    allows = a;
    tracked = rw (Tracked-interrupt o d.fibers t) tt;
  }
  operate_at-Inv trigger_forks d h a t = record {
    allows = a;
    tracked = (refl, Tracked-none d.fibers t);
  }
  operate_at-Inv (trigger_stores i) d h a t = record { allows = tt; tracked = rw a t }
  operate_at-Inv cancel_disposes d h a t = record {
    allows = refl;
    tracked = Tracked-pending d.disposed d.pending d.fibers t;
  }
  operate_at-Inv cancel_takes d h a t = record { allows = a; tracked = t }
  operate_at-Inv (cancel_interrupts o) d h a t = record {
    allows = tt;
    tracked = rw (Tracked-interrupt o d.fibers t) tt;
  }

  -- Every event keeps the invariant.
  pub step-Inv : (e : Event) (d : Debouncer) → Inv d → Inv (step ms e d)
  unfolding step
  step-Inv trigger d h =
      let after =
        enter-Inv d.disposed d.pending d.fibers trigger_reads d.gate tt (λ t. t) h.allows
          h.tracked in
      record { allows = after.0; tracked = after.1 }
  step-Inv cancel d h =
      let after =
        enter-Inv d.disposed d.pending d.fibers cancel_disposes d.gate tt (λ t. t) h.allows
          h.tracked in
      record { allows = after.0; tracked = after.1 }
  step-Inv operate d h = operate_at-Inv d.gate d h h.allows h.tracked
  step-Inv (run i) d h = record {
    allows = h.allows;
    tracked = Tracked-resume d.now d.disposed i _ d.fibers d.calls h.tracked;
  }
  step-Inv (passes t) d h = record { allows = h.allows; tracked = h.tracked }

  pub perform-Inv : (es : List Event) (d : Debouncer) → Inv d → Inv (perform ms es d)
  unfolding perform
  perform-Inv [] d h = h
  perform-Inv (e ∷ es) d h = perform-Inv es (step ms e d) (step-Inv e d h)

pub make_debounced-Inv : (now : ℕ) → Inv (make_debounced now)
unfolding make_debounced
make_debounced-Inv now = record { allows = tt; tracked = tt }
