-- ===== src/Common/Bits.antt =====
-- `|` of disjoint fields as a sum, at every width. The native `bit_or` has no law at variables but
-- its definition by binary digits.
use Prim.Native.Nat.{
  ℕ, zero, suc, ◌+◌, ◌*◌, ◌/◌, ◌%◌, ◌^◌, ◌≤◌, ◌<◌, max, bit_or, digits, bit_or-bitwise,
}
use mathlib.Core.Path.{◌≡◌, refl, ap}
use native.Mathlib.Nat.{pow-suc}
use native.Mathlib.Omega.{arith}

-- More digits than the first number has change nothing.
or_digits_enough :
    (fuel more a b : ℕ)
    → a ≤ fuel
    → a ≤ more
    → digits (λ c. c) max fuel a b ≡ digits (λ c. c) max more a b
or_digits_enough (suc fuel) (suc more) (suc a) b fits too =
    omega (arith, or_digits_enough fuel more (suc a / 2) (b / 2) (omega arith) (omega arith))
or_digits_enough (suc fuel) (suc more) zero b fits too = refl
or_digits_enough (suc fuel) zero (suc a) b fits too = absurd (omega arith)
or_digits_enough zero (suc more) (suc a) b fits too = absurd (omega arith)
or_digits_enough (suc fuel) zero zero b fits too = refl
or_digits_enough zero (suc more) zero b fits too = refl
or_digits_enough zero zero a b fits too = refl

zero-bit_or : (b : ℕ) → bit_or 0 b ≡ b
zero-bit_or b = bit_or-bitwise 0 b

bit_or_low_digit : (a b : ℕ) → bit_or a b ≡ bit_or (a / 2) (b / 2) * 2 + max (a % 2) (b % 2)
bit_or_low_digit zero b = omega (arith, zero-bit_or b, zero-bit_or (b / 2))
bit_or_low_digit (suc a) b = omega (
  arith,
  bit_or-bitwise (suc a) b,
  bit_or-bitwise (suc a / 2) (b / 2),
  or_digits_enough a (suc a / 2) (suc a / 2) (b / 2) (omega arith) (omega arith),
)

bit_or-zero_below : (bound a : ℕ) → a ≤ bound → bit_or a 0 ≡ a
bit_or-zero_below bound zero h = refl
bit_or-zero_below zero (suc a) h = absurd (omega arith)
bit_or-zero_below (suc bound) (suc a) h =
    omega (arith, bit_or_low_digit (suc a) 0, bit_or-zero_below bound (suc a / 2) (omega arith))

-- `(high << k) | low` is a sum when `low` has at most `k` bits.
pub bit_or_disjoint :
    (k high low : ℕ) → low < 2 ^ k → bit_or (high * 2 ^ k) low ≡ high * 2 ^ k + low
bit_or_disjoint zero high low fits = ground (arith, bit_or-zero_below high high (omega arith))
bit_or_disjoint (suc k) high low fits = omega (
  arith,
  bit_or_low_digit (high * 2 ^ suc k) low,
  ap (λ (t : ℕ). high * t) (pow-suc 2 k),
  pow-suc 2 k,
  bit_or_disjoint k high (low / 2) (omega (arith, pow-suc 2 k)),
  ap (λ (t : ℕ). bit_or t (low / 2)) (half_shift k high),
)
  where
    half_shift : (k high : ℕ) → high * 2 ^ suc k / 2 ≡ high * 2 ^ k
    half_shift k high = omega (arith, ap (λ (t : ℕ). high * t) (pow-suc 2 k))

-- The same with the low field first.
pub bit_or_disjoint_low :
    (k low high : ℕ) → low < 2 ^ k → bit_or low (high * 2 ^ k) ≡ high * 2 ^ k + low
bit_or_disjoint_low zero zero high fits = omega (arith, zero-bit_or (high * 2 ^ 0))
bit_or_disjoint_low zero (suc low) high fits = absurd (omega arith)
bit_or_disjoint_low (suc k) low high fits = omega (
  arith,
  bit_or_low_digit low (high * 2 ^ suc k),
  ap (λ (t : ℕ). high * t) (pow-suc 2 k),
  pow-suc 2 k,
  bit_or_disjoint_low k (low / 2) high (omega (arith, pow-suc 2 k)),
  ap (λ (t : ℕ). bit_or (low / 2) t) (half_shift k high),
)
  where
    half_shift : (k high : ℕ) → high * 2 ^ suc k / 2 ≡ high * 2 ^ k
    half_shift k high = omega (arith, ap (λ (t : ℕ). high * t) (pow-suc 2 k))
