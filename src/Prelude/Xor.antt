-- ===== src/Prelude/Xor.antt =====
-- Laws of `bit_xor` and of masks at variables, digit by digit.
use Prim.Native.Nat.{
  ℕ, zero, suc, ◌+◌, ◌*◌, ◌/◌, ◌%◌, ◌^◌, ◌≤◌, ◌<◌, bit_and, bit_xor, differ, bit_xor-bitwise,
}
use mathlib.Core.Path.{◌≡◌, sym, ap, ap₂, ◌∙◌}
use native.Mathlib.Nat.{pow-suc, div-div-eq-div-mul, mul-div-mul_right, one-le-pow, zero-add}
use native.Mathlib.Omega.{arith}
use pcap_server.Prelude.Bits.{digits_halve, and_halve}

differ_digits : (x y : ℕ) → x < 2 → y < 2 → differ x y ≡ (x + y) % 2
differ_digits zero y hx hy = omega arith
differ_digits (suc zero) zero hx hy = omega arith
differ_digits (suc zero) (suc zero) hx hy = omega arith
differ_digits (suc zero) (suc (suc y)) hx hy = absurd (omega arith)
differ_digits (suc (suc x)) y hx hy = absurd (omega arith)

pub xor_halve : (a b : ℕ) → bit_xor a b ≡ bit_xor (a / 2) (b / 2) * 2 + (a % 2 + b % 2) % 2
xor_halve a b = omega (
  arith,
  bit_xor-bitwise a b,
  bit_xor-bitwise (a / 2) (b / 2),
  digits_halve (λ c. c) differ a b (λ c. omega arith),
  differ_digits (a % 2) (b % 2) (omega arith) (omega arith),
)

div-pow_suc : (k a : ℕ) → a / 2 ^ suc k ≡ a / 2 ^ k / 2
div-pow_suc k a = ap (◌/◌ a) (pow-suc 2 k) ∙ sym (div-div-eq-div-mul a (2 ^ k) 2)

-- Shifting right commutes with exclusive or.
pub bit_xor-div : (k a b : ℕ) → bit_xor a b / 2 ^ k ≡ bit_xor (a / 2 ^ k) (b / 2 ^ k)
bit_xor-div zero a b =
    let ea : a / 2 ^ 0 ≡ a = omega arith in
    let eb : b / 2 ^ 0 ≡ b = omega arith in
    let e : bit_xor a b / 2 ^ 0 ≡ bit_xor a b = omega arith in e ∙ sym (ap₂ bit_xor ea eb)
bit_xor-div (suc k) a b =
    let ih = bit_xor-div k a b in
    let half : bit_xor (a / 2 ^ k) (b / 2 ^ k) / 2 ≡ bit_xor (a / 2 ^ k / 2) (b / 2 ^ k / 2) =
      omega (arith, xor_halve (a / 2 ^ k) (b / 2 ^ k)) in
    div-pow_suc k (bit_xor a b)
    ∙ ap (λ n. n / 2) ih
    ∙ half
    ∙ sym (ap₂ bit_xor (div-pow_suc k a) (div-pow_suc k b))

-- A value is determined by its exclusive or with a mask.
xor_cancel_below : (bound a b m : ℕ) → a ≤ bound → b ≤ bound → bit_xor a m ≡ bit_xor b m → a ≡ b
xor_cancel_below zero a b m ha hb e = omega arith
xor_cancel_below (suc bound) a b m ha hb e =
    let half : bit_xor (a / 2) (m / 2) ≡ bit_xor (b / 2) (m / 2) =
      omega (arith, xor_halve a m, xor_halve b m, e) in
    let same = xor_cancel_below bound (a / 2) (b / 2) (m / 2) (omega arith) (omega arith) half in
    omega (arith, xor_halve a m, xor_halve b m, e, same, half)

pub xor_cancel : (a b m : ℕ) → bit_xor a m ≡ bit_xor b m → a ≡ b
xor_cancel a b m e = xor_cancel_below (a + b) a b m (omega arith) (omega arith) e

-- Exclusive or has no more digits than its arguments.
pub bit_xor-lt : (k a b : ℕ) → a < 2 ^ k → b < 2 ^ k → bit_xor a b < 2 ^ k
bit_xor-lt zero a b ha hb =
    let ea : a ≡ 0 = omega arith in let eb : b ≡ 0 = omega arith in rw (ea, eb) (omega arith)
bit_xor-lt (suc k) a b ha hb = omega (
  arith,
  xor_halve a b,
  pow-suc 2 k,
  bit_xor-lt k (a / 2) (b / 2) (omega (arith, pow-suc 2 k)) (omega (arith, pow-suc 2 k)),
)

-- A mask with `k` zeros at its end reads nothing of the last `k` digits.
pub bit_and-mul_pow : (k x m : ℕ) → bit_and x (m * 2 ^ k) ≡ bit_and (x / 2 ^ k) m * 2 ^ k
bit_and-mul_pow zero x m =
    let ex : x / 2 ^ 0 ≡ x = omega arith in
    let em : m * 2 ^ 0 ≡ m = omega arith in
    let e : bit_and x m ≡ bit_and x m * 2 ^ 0 = omega arith in
    ap (bit_and x) em ∙ e ∙ sym (ap (λ y. bit_and y m * 2 ^ 0) ex)
bit_and-mul_pow (suc k) x m =
    let shape : m * 2 ^ suc k ≡ m * 2 ^ k * 2 = rw (pow-suc 2 k) (omega arith) in
    let half : m * 2 ^ k * 2 / 2 ≡ m * 2 ^ k = omega arith in
    let step : bit_and x (m * 2 ^ k * 2) ≡ bit_and (x / 2) (m * 2 ^ k) * 2 =
      rw half at (and_halve x (m * 2 ^ k * 2)) ∙ omega arith in
    let inner = bit_and-mul_pow k (x / 2) m in
    let shifted : x / 2 / 2 ^ k ≡ x / 2 ^ suc k =
      div-div-eq-div-mul x 2 (2 ^ k) ∙ ap (◌/◌ x) (rw (pow-suc 2 k) (omega arith)) in
    ap (bit_and x) shape
    ∙ step
    ∙ ap (λ n. n * 2) (inner ∙ ap (λ y. bit_and y m * 2 ^ k) shifted)
    ∙ rw (pow-suc 2 k) (omega arith)

pub pow-add : (m n : ℕ) → 2 ^ (m + n) ≡ 2 ^ m * 2 ^ n
pow-add zero n = ap (λ k. 2 ^ k) (zero-add n) ∙ omega arith
pow-add (suc m) n =
    let e : suc m + n ≡ suc (m + n) = omega arith in
    let shape : 2 ^ (m + n) * 2 ≡ 2 ^ m * 2 * 2 ^ n = rw (pow-add m n) (grind arith) in
    ap (λ k. 2 ^ k) e ∙ pow-suc 2 (m + n) ∙ shape ∙ ap (λ k. k * 2 ^ n) (sym (pow-suc 2 m))

-- A shift right after a shift right, and after a shift left.
pub div-pow_add : (m n a : ℕ) → a / 2 ^ m / 2 ^ n ≡ a / 2 ^ (m + n)
div-pow_add m n a = div-div-eq-div-mul a (2 ^ m) (2 ^ n) ∙ ap (◌/◌ a) (sym (pow-add m n))

pub mul-pow-div : (m n a : ℕ) → a * 2 ^ m / 2 ^ (n + m) ≡ a / 2 ^ n
mul-pow-div m n a =
    ap (◌/◌ (a * 2 ^ m)) (pow-add n m) ∙ mul-div-mul_right a (2 ^ n) (one-le-pow m 2 (omega arith))
