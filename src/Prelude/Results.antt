-- ===== src/Prelude/Results.antt =====
-- Results of code that can throw or fail: the error, or the value.
use mathlib.Core.Path.{◌≡◌, refl}
use mathlib.Core.Logic.{◌⊎◌, inl, inr}
use mathlib.Core.Option.{Option, none, some}

pub data Result {ℓ} (Err Val : Type ℓ) : Type ℓ where
  err : Err → Result Err Val
  ok : Val → Result Err Val

-- What a call of foreign code does: it throws, or it goes on to the value.
abbrev pub attempt {ℓ} : {Err Val : Type ℓ} → Option Err → Val → Result Err Val
attempt (some cause) v = err cause
attempt none v = ok v

-- `Effect.mapError`
abbrev pub map_error {ℓ} : {Old New Val : Type ℓ} → (Old → New) → Result Old Val → Result New Val
map_error change (err cause) = err (change cause)
map_error change (ok v) = ok v

infixl 5 ◌>>=◌
-- Goes on with the value, or passes the error on.
abbrev pub ◌>>=◌ {ℓ} :
    {Err Val Next : Type ℓ} → Result Err Val → (Val → Result Err Next) → Result Err Next
(err cause) >>= next = err cause
(ok v) >>= next = next v

pub Result-cases {ℓ} :
    {E A : Type ℓ} (r : Result E A) → ((a : A) × (r ≡ ok a)) ⊎ ((e : E) × (r ≡ err e))
Result-cases (ok a) = inl (a, refl)
Result-cases (err e) = inr (e, refl)

-- A bind that returns went through a value.
pub >>=-eq-ok {ℓ} :
    {Err Val Next : Type ℓ} (r : Result Err Val) (next : Val → Result Err Next) {last : Next}
    → (r >>= next) ≡ ok last
    → (v : Val) × (r ≡ ok v) × (next v ≡ ok last)
>>=-eq-ok (err cause) next e = cc
>>=-eq-ok (ok v) next e = (v, refl, e)

pub map_error-eq-ok {ℓ} :
    {E F A : Type ℓ} (f : E → F) (m : Result E A) {a : A} → map_error f m ≡ ok a → m ≡ ok a
map_error-eq-ok f (ok a) h = cc h
map_error-eq-ok f (err e) h = cc
