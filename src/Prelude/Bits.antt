-- ===== src/Prelude/Bits.antt =====
-- Laws of `bit_and` and `bit_or` at variables. Both stand for one recursion on binary digits,
-- and what they share is proved for it once.
use Prim.Native.Nat.{
  ℕ, zero, suc, ◌+◌, ◌*◌, ◌/◌, ◌%◌, ◌^◌, ◌≤◌, ◌<◌, min, max, bit_and, bit_or, digits,
  bit_and-bitwise, bit_or-bitwise,
}
use mathlib.Core.Path.{◌≡◌, refl}
use native.Mathlib.Nat.{pow-suc}
use native.Mathlib.Omega.{arith}

module _ (at_zero : ℕ → ℕ) (on_digits : ℕ → ℕ → ℕ) where
  -- Fuel above the left argument makes no difference.
  digits_enough :
      (a b more less : ℕ)
      → a ≤ less
      → less ≤ more
      → digits at_zero on_digits more a b ≡ digits at_zero on_digits less a b
  digits_enough zero b zero zero h k = refl
  digits_enough zero b zero (suc less) h k = absurd (omega arith)
  digits_enough zero b (suc more) zero h k = refl
  digits_enough zero b (suc more) (suc less) h k = refl
  digits_enough (suc a) b more zero h k = absurd (omega arith)
  digits_enough (suc a) b zero (suc less) h k = absurd (omega arith)
  digits_enough (suc a) b (suc more) (suc less) h k =
      omega (arith, digits_enough (suc a / 2) (b / 2) more less (omega arith) (omega arith))

  -- The operation on the halves, and then on the last digits.
  pub digits_halve :
      (a b : ℕ)
      → ((c : ℕ) → at_zero c ≡ at_zero (c / 2) * 2 + on_digits 0 (c % 2))
      → digits at_zero on_digits a a b
        ≡ digits at_zero on_digits (a / 2) (a / 2) (b / 2) * 2 + on_digits (a % 2) (b % 2)
  digits_halve zero b base = base b
  digits_halve (suc a) b base =
      omega (arith, digits_enough (suc a / 2) (b / 2) a (suc a / 2) (omega arith) (omega arith))

pub and_halve : (a b : ℕ) → bit_and a b ≡ bit_and (a / 2) (b / 2) * 2 + min (a % 2) (b % 2)
and_halve a b = omega (
  arith,
  bit_and-bitwise a b,
  bit_and-bitwise (a / 2) (b / 2),
  digits_halve (λ _. zero) min a b (λ c. omega arith),
)

or_halve : (a b : ℕ) → bit_or a b ≡ bit_or (a / 2) (b / 2) * 2 + max (a % 2) (b % 2)
or_halve a b = omega (
  arith,
  bit_or-bitwise a b,
  bit_or-bitwise (a / 2) (b / 2),
  digits_halve (λ c. c) max a b (λ c. omega arith),
)

-- With 0 on the right, by recursion on a bound of the left argument.
right_zero : (bound a : ℕ) → a ≤ bound → (bit_and a 0 ≡ 0) × (bit_or a 0 ≡ a)
right_zero bound zero h = (refl, refl)
right_zero zero (suc a) h = absurd (omega arith)
right_zero (suc bound) (suc a) h =
    let half = right_zero bound (suc a / 2) (omega arith) in
    (omega (arith, and_halve (suc a) 0, half.0), omega (arith, or_halve (suc a) 0, half.1))

nibble : (a : ℕ) → bit_and a 15 ≡ a % 16
nibble a = omega (
  arith,
  and_halve a 15,
  and_halve (a / 2) 7,
  and_halve (a / 2 / 2) 3,
  and_halve (a / 2 / 2 / 2) 1,
  (right_zero a (a / 2 / 2 / 2 / 2) (omega arith)).0,
)

-- `a & 0xFF`
pub bit_and_1 : (a : ℕ) → bit_and a 1 ≡ a % 2
bit_and_1 a = omega (arith, and_halve a 1, (right_zero (a / 2) (a / 2) (omega arith)).0)

pub bit_and_255 : (a : ℕ) → bit_and a 255 ≡ a % 256
bit_and_255 a = omega (
  arith,
  and_halve a 255,
  and_halve (a / 2) 127,
  and_halve (a / 2 / 2) 63,
  and_halve (a / 2 / 2 / 2) 31,
  nibble (a / 2 / 2 / 2 / 2),
)

-- `(x << k) | y` where `y` has `k` bits.
pub shl-bit_or : (k x y : ℕ) → y < 2 ^ k → bit_or (x * 2 ^ k) y ≡ x * 2 ^ k + y
shl-bit_or zero x zero h = omega (arith, (right_zero x (x * 1) (omega arith)).1)
shl-bit_or zero x (suc y) h = absurd (omega arith)
shl-bit_or (suc k) x y h =
    let e : x * 2 ^ suc k ≡ x * 2 ^ k * 2 = rw (pow-suc 2 k) (omega arith) in
    let half : x * 2 ^ suc k / 2 ≡ x * 2 ^ k = omega (arith, e) in
    let step = rw half at (or_halve (x * 2 ^ suc k) y) in
    omega (arith, e, step, shl-bit_or k x (y / 2) (omega (arith, pow-suc 2 k)))
