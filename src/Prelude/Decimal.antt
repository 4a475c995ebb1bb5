-- ===== src/Prelude/Decimal.antt =====
-- The decimal print of a whole number, as a template literal writes it.
use Prim.Native.Nat.{ℕ, zero, suc, ◌+◌, ◌-◌, ◌*◌, ◌/◌, ◌%◌, ◌≤◌, ◌<◌}
use mathlib.Core.Path.{◌≡◌, refl, sym, ap, ◌∙◌}
use mathlib.Core.List.{[], ◌∷◌}
use mathlib.Core.Logic.{◌≢◌}
use native.Mathlib.Omega.{arith}
use mitools.Prelude.Tests.{ltb, if◌then◌else◌}
use mitools.Prelude.Lists.{All}
use mitools.Prelude.Texts.{Text, codes, Lacks}

digits : ℕ → ℕ → Text → Text
digits zero n out = out
digits (suc f) n out =
    let rest = digits f (n / 10) ((b'0' + n % 10) ∷ out) in
    if ltb n 10 then (b'0' + n) ∷ out else rest

-- A number has fewer digits than its successor counts.
unfoldable pub decimal : ℕ → Text
unfolding digits
decimal n = digits (suc n) n []

-- `Number(s)` of a text of digits that follow the digits of `n`
abbrev pub value : ℕ → Text → ℕ
value n [] = n
value n (c ∷ s) = value (n * 10 + (c - b'0')) s

value-digits : (f n : ℕ) (out : Text) → n < f → value 0 (digits f n out) ≡ value n out
unfolding digits
value-digits zero n out h = absurd (omega arith)
value-digits (suc f) n out h = ground (arith, value-digits f (n / 10) ((b'0' + n % 10) ∷ out))

pub value-decimal : (n : ℕ) → value 0 (decimal n) ≡ n
unfolding decimal
value-decimal n = value-digits (suc n) n [] (omega arith)

pub decimal-injective : (m n : ℕ) → decimal m ≡ decimal n → m ≡ n
decimal-injective m n e = sym (value-decimal m) ∙ ap (value 0) e ∙ value-decimal n

abbrev pub IsDigit : ℕ → Type 0
IsDigit c = (b'0' ≤ c) × (c ≤ b'9')

digits-IsDigit : (f n : ℕ) (out : Text) → All IsDigit out → All IsDigit (digits f n out)
unfolding digits
digits-IsDigit zero n out h = h
digits-IsDigit (suc f) n out h = ground (arith, digits-IsDigit f (n / 10) ((b'0' + n % 10) ∷ out))

pub decimal-IsDigit : (n : ℕ) → All IsDigit (decimal n)
unfolding decimal
decimal-IsDigit n = digits-IsDigit (suc n) n [] tt

digits-nonempty : (f n c : ℕ) (out : Text) → digits f n (c ∷ out) ≢ []
unfolding digits
digits-nonempty zero n c out = cc
digits-nonempty (suc f) n c out =
    ground (arith, digits-nonempty f (n / 10) (b'0' + n % 10) (c ∷ out))

pub decimal-nonempty : (n : ℕ) → decimal n ≢ []
unfolding decimal digits
decimal-nonempty n = ground (arith, digits-nonempty n (n / 10) (b'0' + n % 10) [])

pub IsDigit-Lacks : (c : ℕ) (s : Text) → b'9' < c → All IsDigit s → Lacks c s
IsDigit-Lacks c [] h d = tt
IsDigit-Lacks c (a ∷ s) h d = (λ e. omega arith, IsDigit-Lacks c s h d.1)

decimal_runs : decimal 1234 ≡ codes "1234"
unfolding decimal
decimal_runs = refl
