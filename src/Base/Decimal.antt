-- ===== src/Base/Decimal.antt =====
-- Numbers in decimal: `format!("{}", n)` and `parse::<u64>()`.
use Prim.Native.Nat.{ℕ, zero, suc, ◌+◌, ◌-◌, ◌*◌, ◌/◌, ◌%◌, ◌^◌, ◌≤◌, ◌<◌}
use mathlib.Core.Path.{◌≡◌, refl}
use mathlib.Core.Logic.{inl, inr}
use mathlib.Core.Bool.{Bool, true, false, ◌&&◌}
use mathlib.Core.List.{[], ◌∷◌}
use mathlib.Core.Option.{Option, none, some}
use native.Mathlib.Omega.{arith}
use flexo.Base.Tests.{ltb, leb, ◌==◌, if◌then◌else◌, Bool-cases}
use flexo.Base.Lists.{all}
use flexo.Base.Text.{Text}

abbrev pub is_ascii_digit : ℕ → Bool
is_ascii_digit c = leb 48 c && leb c 57

-- the value of decimal digits behind those of `n`
unfoldable pub digits : ℕ → Text → Option ℕ
digits n [] = some n
digits n (c ∷ cs) =
    let rest = digits (n * 10 + (c - 48)) cs in if is_ascii_digit c then rest else none

unfoldable pub in_u64 : Option ℕ → Option ℕ
in_u64 none = none
in_u64 (some n) = if ltb n (2 ^ 64) then some n else none

-- `parse::<u64>`: digits, at least one, perhaps behind a plus sign.
unfoldable pub parse_digits : Text → Option ℕ
unfolding digits in_u64
parse_digits [] = none
parse_digits (c ∷ cs) = in_u64 (digits 0 (c ∷ cs))

unfoldable pub parse_u64 : Text → Option ℕ
unfolding parse_digits
parse_u64 [] = none
parse_u64 (c ∷ cs) = if c == 43 then parse_digits cs else parse_digits (c ∷ cs)

-- the digits of `n` before `out`, from the last one on
unfoldable pub emit : ℕ → ℕ → Text → Text
emit zero n out = out
emit (suc fuel) n out = elim (n / 10 == 0) [
  | true ↦ (48 + n % 10) ∷ out
  | false ↦ emit fuel (n / 10) ((48 + n % 10) ∷ out)
]

-- `format!("{}", n)`; each round drops a digit, so that `n + 1` rounds are enough.
unfoldable pub to_decimal : ℕ → Text
unfolding emit
to_decimal n = emit (suc n) n []

digits-emit : (fuel n : ℕ) (out : Text) → n < fuel → digits 0 (emit fuel n out) ≡ digits n out
unfolding digits emit
digits-emit zero n out h = absurd (omega arith)
digits-emit (suc fuel) n out h = elim (Bool-cases (n / 10 == 0)) [
  | inl last ↦ rw (last, emit) (ground arith)
  | inr more ↦ rw (more, emit) (ground (arith, digits-emit fuel (n / 10) ((48 + n % 10) ∷ out)))
]

all-digits-emit :
    (fuel n : ℕ) (out : Text)
    → all is_ascii_digit out ≡ true
    → all is_ascii_digit (emit fuel n out) ≡ true
unfolding emit
all-digits-emit zero n out h = h
all-digits-emit (suc fuel) n out h = elim (Bool-cases (n / 10 == 0)) [
  | inl last ↦ rw (last, emit) (ground arith)
  | inr more ↦ rw (more, emit) (all-digits-emit fuel (n / 10) ((48 + n % 10) ∷ out) (ground arith))
]

-- Something stands there, and it starts with a digit.
emit-cons :
    (fuel n c : ℕ) (out : Text)
    → (48 ≤ c) × (c ≤ 57)
    → (d : ℕ) × (ds : Text) × (emit fuel n (c ∷ out) ≡ d ∷ ds) × (48 ≤ d) × (d ≤ 57)
unfolding emit
emit-cons zero n c out h = (c, out, refl, h.0, h.1)
emit-cons (suc fuel) n c out h = elim (Bool-cases (n / 10 == 0)) [
  | inl last ↦ rw (last, emit) (48 + n % 10, c ∷ out, refl, omega arith, omega arith)
  | inr more ↦
      rw (more, emit) (emit-cons fuel (n / 10) (48 + n % 10) (c ∷ out) (omega arith, omega arith))
]

pub to_decimal-cons :
    (n : ℕ) → (d : ℕ) × (ds : Text) × (to_decimal n ≡ d ∷ ds) × (48 ≤ d) × (d ≤ 57)
unfolding to_decimal emit
to_decimal-cons n = elim (Bool-cases (n / 10 == 0)) [
  | inl last ↦ rw (last, emit) (48 + n % 10, [], refl, omega arith, omega arith)
  | inr more ↦ rw (more, emit) (emit-cons n (n / 10) (48 + n % 10) [] (omega arith, omega arith))
]

pub all-digits-to_decimal : (n : ℕ) → all is_ascii_digit (to_decimal n) ≡ true
unfolding to_decimal
all-digits-to_decimal n = all-digits-emit (suc n) n [] refl

pub digits-to_decimal : (n : ℕ) → digits 0 (to_decimal n) ≡ some n
unfolding to_decimal digits
digits-to_decimal n = digits-emit (suc n) n [] (omega arith)

-- A number of 64 bits is read back from its decimal form.
pub parse_u64-to_decimal : (n : ℕ) → n < 2 ^ 64 → parse_u64 (to_decimal n) ≡ some n
unfolding parse_u64 parse_digits in_u64
parse_u64-to_decimal n h =
    let (d, ds, e, lo, hi) = to_decimal-cons n in
    let value : digits 0 (d ∷ ds) ≡ some n = rw e at (digits-to_decimal n) in
    rw e (ground (arith, value))
