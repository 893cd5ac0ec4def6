-- ===== src/Base/Bits.antt =====
-- `&` with a mask of low bits, and with its complement, as arithmetic.
use Prim.Native.Nat.{
  ℕ, zero, suc, ◌+◌, ◌-◌, ◌*◌, ◌/◌, ◌%◌, ◌^◌, ◌≤◌, ◌<◌, min, bit_and, digits, bit_and-bitwise,
}
use mathlib.Core.Path.{◌≡◌, refl, ap, ◌∙◌}
use native.Mathlib.Nat.{
  pow-suc, pow-succ', one-le-pow, mul-add-mod_self_left, one-mul, div-one, mul_assoc,
  div-div-eq-div-mul, mod-eq_of_lt, mod-lt, div-add-mod,
}
use native.Mathlib.Omega.{arith}

-- The digits of the conjunction do not depend on the fuel, once it covers the first operand.
same_digits :
    (n m a b : ℕ) → a ≤ n → a ≤ m → digits (λ b. zero) min n a b ≡ digits (λ b. zero) min m a b
same_digits zero zero a b p q = refl
same_digits (suc n) zero (suc a) b p q = absurd (omega arith)
same_digits zero (suc m) (suc a) b p q = absurd (omega arith)
same_digits (suc n) zero zero b p q = refl
same_digits zero (suc m) zero b p q = refl
same_digits (suc n) (suc m) zero b p q = refl
same_digits (suc n) (suc m) (suc a) b p q =
    rw (same_digits n m (suc a / 2) (b / 2) (omega arith) (omega arith))

pub bit_and-half : (a b : ℕ) → bit_and a b ≡ 2 * bit_and (a / 2) (b / 2) + min (a % 2) (b % 2)
bit_and-half zero b = simp bit_and-bitwise (omega arith)
bit_and-half (suc a) b = omega (
  arith,
  bit_and-bitwise (suc a) b,
  bit_and-bitwise (suc a / 2) (b / 2),
  same_digits a (suc a / 2) (suc a / 2) (b / 2) (omega arith) (omega arith),
)

below_zero : (n a : ℕ) → a ≤ n → bit_and a 0 ≡ 0
below_zero n zero h = refl
below_zero zero (suc a) h = absurd (omega arith)
below_zero (suc n) (suc a) h =
    omega (arith, bit_and-half (suc a) 0, below_zero n (suc a / 2) (omega arith))

pub bit_and-zero : (a : ℕ) → bit_and a 0 ≡ 0
bit_and-zero a = below_zero a a (omega arith)

half_mask : (k : ℕ) → (2 ^ suc k - 1) / 2 ≡ 2 ^ k - 1
half_mask k = omega (arith, pow-suc 2 k, one-le-pow k 2)

-- The remainder of a number that is written with a quotient.
pub mod_of_split : (a n q r : ℕ) → a ≡ n * q + r → r < n → a % n ≡ r
mod_of_split a n q r e h = rw (e, mul-add-mod_self_left) (mod-eq_of_lt h)

mod-twice : (a m : ℕ) → 0 < m → a % (2 * m) ≡ 2 * (a / 2 % m) + a % 2
mod-twice a m h =
    let split = div-add-mod (a / 2) m in
    let small = mod-lt (a / 2) h in
    mod_of_split a (2 * m) (a / 2 / m) (2 * (a / 2 % m) + a % 2) (omega arith) (omega arith)

mod-two-pow : (a k : ℕ) → a % 2 ^ suc k ≡ 2 * (a / 2 % 2 ^ k) + a % 2
mod-two-pow a k = rw pow-succ' (mod-twice a (2 ^ k) (one-le-pow k 2 (omega arith)))

pub bit_and_mask : (k a : ℕ) → bit_and a (2 ^ k - 1) ≡ a % 2 ^ k
bit_and_mask zero a = omega (arith, bit_and-zero a)
bit_and_mask (suc k) a = omega (
  arith,
  bit_and-half a (2 ^ suc k - 1),
  ap (bit_and (a / 2)) (half_mask k),
  bit_and_mask k (a / 2),
  mod-two-pow a k,
  pow-suc 2 k,
  one-le-pow k 2,
)

-- `x & ~0x3` on 64 bits.
pub bit_and_bucket : (x : ℕ) → x < 2 ^ 64 → bit_and x (2 ^ 64 - 4) ≡ x - x % 4
bit_and_bucket x h = omega (
  arith,
  bit_and-half x (2 ^ 64 - 4),
  bit_and-half (x / 2) (2 ^ 63 - 2),
  bit_and_mask 62 (x / 2 / 2),
)

-- `&` with a mask whose `k` low bits are not set.
pub bit_and_shifted : (k a m : ℕ) → bit_and a (2 ^ k * m) ≡ 2 ^ k * bit_and (a / 2 ^ k) m
bit_and_shifted zero a m = rw (one-mul, one-mul, div-one) refl
bit_and_shifted (suc k) a m =
    let x = 2 ^ k * m in
    let half : 2 * x / 2 ≡ x = omega arith in
    let masks : bit_and a (2 * x) ≡ 2 * bit_and (a / 2) x =
      omega (arith, bit_and-half a (2 * x), ap (bit_and (a / 2)) half) in
    rw (pow-succ', mul_assoc)
      (masks
        ∙ ap (λ y. 2 * y) (bit_and_shifted k (a / 2) m)
        ∙ rw (div-div-eq-div-mul, mul_assoc) refl)
