-- ===== src/Prelude/Decimal.antt =====
-- `strconv.AppendInt(buf, v, 10)` and `strconv.Itoa`: decimal prints,
-- their reading and their characters.
use Prim.Native.Nat.{ℕ, zero, suc, ◌+◌, ◌-◌, ◌*◌, ◌/◌, ◌%◌, ◌≤◌, ◌<◌}
use mathlib.Core.Path.{◌≡◌, sym, ap, ◌∙◌, subst}
use mathlib.Core.Logic.{◌≢◌, inl, inr}
use mathlib.Core.List.{[], ◌∷◌}
use native.Mathlib.Omega.{arith}
use ztelem.Prelude.Tests.{Bytes, ◌==◌, if◌then◌else◌, Bool-cases}
use ztelem.Prelude.Lists.{All}
use ztelem.Prelude.Int.{ℤ, pos, negsuc}

-- One digit for each unit of fuel, the last digit first, until the quotient is 0.
digits_fuel : ℕ → ℕ → Bytes → Bytes
digits_fuel zero n out = out
digits_fuel (suc f) n out =
    let d = (b'0' + n % 10) ∷ out in
    let rest = digits_fuel f (n / 10) d in if n / 10 == 0 then d else rest

-- A number has at most one digit for each unit, so the fuel is enough.
unfoldable pub format_uint : ℕ → Bytes
unfolding digits_fuel
format_uint n = digits_fuel (suc n) n []

unfoldable pub format_int : ℤ → Bytes
unfolding format_uint
format_int (pos n) = format_uint n
format_int (negsuc n) = b'-' ∷ format_uint (suc n)

abbrev pub IsDigit : ℕ → Type 0
IsDigit c = (b'0' ≤ c) × (c ≤ b'9')

abbrev pub Lacks : ℕ → Bytes → Type 0
Lacks b = All (λ c. c ≢ b)

-- The number that digits spell behind `n`.
pub value : ℕ → Bytes → ℕ
value n [] = n
value n (c ∷ s) = value (n * 10 + (c - b'0')) s

value-digits_fuel : (f n : ℕ) (out : Bytes) → n < f → value 0 (digits_fuel f n out) ≡ value n out
unfolding digits_fuel value
value-digits_fuel zero n out h = absurd (omega arith)
value-digits_fuel (suc f) n out h = elim (Bool-cases (n / 10 == 0)) [
  | inl e ↦ rw e (ap (λ k. value k out) (ground arith))
  | inr e ↦ rw e (
      value-digits_fuel f (n / 10) ((b'0' + n % 10) ∷ out) (ground arith)
      ∙ ap (λ k. value k out) (ground arith))
]

digits_fuel-IsDigit : (f n : ℕ) (out : Bytes) → All IsDigit out → All IsDigit (digits_fuel f n out)
unfolding digits_fuel
digits_fuel-IsDigit zero n out h = h
digits_fuel-IsDigit (suc f) n out h = elim (Bool-cases (n / 10 == 0)) [
  | inl e ↦ rw e ((omega arith, omega arith), h)
  | inr e ↦
      rw e (digits_fuel-IsDigit f (n / 10) ((b'0' + n % 10) ∷ out) ((omega arith, omega arith), h))
]

pub format_uint-IsDigit : (n : ℕ) → All IsDigit (format_uint n)
unfolding format_uint
format_uint-IsDigit n = digits_fuel-IsDigit (suc n) n [] tt

pub value-format_uint : (n : ℕ) → value 0 (format_uint n) ≡ n
unfolding format_uint value
value-format_uint n = value-digits_fuel (suc n) n [] (omega arith)

pub format_uint_injective : (m n : ℕ) → format_uint m ≡ format_uint n → m ≡ n
format_uint_injective m n e =
    sym (value-format_uint m) ∙ ap (λ s. value 0 s) e ∙ value-format_uint n

IsDigit-Lacks : (b : ℕ) (s : Bytes) → (IsDigit b → ⊥) → All IsDigit s → Lacks b s
IsDigit-Lacks b [] h _ = tt
IsDigit-Lacks b (c ∷ s) h (d, ds) = (λ e. h (ground arith), IsDigit-Lacks b s h ds)

pub format_uint-Lacks : (b n : ℕ) → (IsDigit b → ⊥) → Lacks b (format_uint n)
format_uint-Lacks b n h = IsDigit-Lacks b (format_uint n) h (format_uint-IsDigit n)

-- A byte that is neither a digit nor the sign stands in no decimal print.
pub format_int-Lacks : (b : ℕ) (v : ℤ) → (IsDigit b → ⊥) → b'-' ≢ b → Lacks b (format_int v)
unfolding format_int
format_int-Lacks b (pos n) h k = format_uint-Lacks b n h
format_int-Lacks b (negsuc n) h k = (k, format_uint-Lacks b (suc n) h)

sign_ne : (n : ℕ) (s : Bytes) → format_uint n ≢ b'-' ∷ s
sign_ne n s e = let h = subst (All IsDigit) e (format_uint-IsDigit n) in absurd (omega (arith, h.0))

pub format_int_injective : (v w : ℤ) → format_int v ≡ format_int w → v ≡ w
unfolding format_int
format_int_injective (pos m) (pos n) e = ap pos (format_uint_injective m n e)
format_int_injective (pos m) (negsuc n) e = absurd (sign_ne m _ e)
format_int_injective (negsuc m) (pos n) e = absurd (sign_ne n _ (sym e))
format_int_injective (negsuc m) (negsuc n) e =
    let h = format_uint_injective (suc m) (suc n) (cc) in
    let k : m ≡ n = omega (arith, h) in ap negsuc k

-- A leading zero does not change the number.
pub value-zero : (s : Bytes) → value 0 (b'0' ∷ s) ≡ value 0 s
unfolding value
value-zero s = λ i. value 0 s
