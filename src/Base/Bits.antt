-- ===== src/Base/Bits.antt =====
-- `|` of machine words as arithmetic, where one operand fills low bits that the other leaves clear.
use Prim.Native.Nat.{
  ℕ, zero, suc, ◌+◌, ◌*◌, ◌/◌, ◌%◌, ◌^◌, ◌≤◌, ◌<◌, max, digits, bit_or, bit_or-bitwise,
}
use mathlib.Core.Path.{◌≡◌, refl, ap}
use native.Mathlib.Nat.{pow-suc}
use native.Mathlib.Omega.{arith}

-- The digits of `|` on any fuel that covers the first operand.
abbrev or_digits : ℕ → ℕ → ℕ → ℕ
or_digits n a b = digits (λ y. y) max n a b

or_digits_fuel : (m n x y : ℕ) → x ≤ m → x ≤ n → or_digits m x y ≡ or_digits n x y
or_digits_fuel zero zero zero y small large = refl
or_digits_fuel zero (suc n) zero y small large = refl
or_digits_fuel (suc m) zero zero y small large = refl
or_digits_fuel (suc m) (suc n) zero y small large = refl
or_digits_fuel zero n (suc x) y small large = absurd (omega arith)
or_digits_fuel (suc m) zero (suc x) y small large = absurd (omega arith)
or_digits_fuel (suc m) (suc n) (suc x) y small large =
    omega (arith, or_digits_fuel m n (suc x / 2) (y / 2) (omega arith) (omega arith))

zero-bit_or : (b : ℕ) → bit_or 0 b ≡ b
zero-bit_or b = bit_or-bitwise 0 b

-- One equation for the lowest digit.
pub bit_or_step : (a b : ℕ) → bit_or a b ≡ bit_or (a / 2) (b / 2) * 2 + max (a % 2) (b % 2)
bit_or_step zero b = omega (arith, zero-bit_or b, zero-bit_or (b / 2))
bit_or_step (suc a) b = omega (
  arith,
  bit_or-bitwise (suc a) b,
  bit_or-bitwise (suc a / 2) (b / 2),
  or_digits_fuel a (suc a / 2) (suc a / 2) (b / 2) (omega arith) (omega arith),
)

bit_or-zero_fuel : (n a : ℕ) → a ≤ n → bit_or a 0 ≡ a
bit_or-zero_fuel n zero h = refl
bit_or-zero_fuel zero (suc a) h = absurd (omega arith)
bit_or-zero_fuel (suc n) (suc a) h =
    omega (arith, bit_or_step (suc a) 0, bit_or-zero_fuel n (suc a / 2) (omega arith))

pub bit_or-zero : (a : ℕ) → bit_or a 0 ≡ a
bit_or-zero a = bit_or-zero_fuel a a (omega arith)

-- Setting the lowest bit.
pub bit_or-one : (a : ℕ) → bit_or a 1 ≡ a / 2 * 2 + 1
bit_or-one a = omega (arith, bit_or_step a 1, bit_or-zero (a / 2))

pub bit_or_two : (a : ℕ) → bit_or a 2 ≡ (a / 4 * 2 + 1) * 2 + a % 2
bit_or_two a = omega (arith, bit_or_step a 2, bit_or-one (a / 2))

pub bit_or_four : (a : ℕ) → bit_or a 4 ≡ (a / 8 * 2 + 1) * 4 + a % 4
bit_or_four a = omega (arith, bit_or_step a 4, bit_or_two (a / 2))

-- `|` of a multiple of `2 ^ k` and a number of `k` bits is their sum.
pub bit_or_fields :
    (width high low : ℕ) → low < 2 ^ width → bit_or (high * 2 ^ width) low ≡ high * 2 ^ width + low
bit_or_fields zero high low h = ground (arith, bit_or-zero high)
bit_or_fields (suc width) high low h =
    let double : high * 2 ^ suc width ≡ high * (2 ^ width * 2) =
      ap (λ (t : ℕ). high * t) (pow-suc 2 width) in
    let rest = bit_or_fields width high (low / 2) (omega arith) in
    ground (arith, bit_or_step (high * 2 ^ suc width) low)
