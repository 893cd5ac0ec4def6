-- ===== src/Base/Xor.antt =====
-- `^` on numbers: it undoes itself, and stays within the width of its operands.
use Prim.Native.Nat.{
  ℕ, zero, suc, ◌+◌, ◌*◌, ◌/◌, ◌%◌, ◌^◌, ◌≤◌, ◌<◌, bit_xor, digits, bit_xor-bitwise, differ,
}
use mathlib.Core.Path.{◌≡◌, refl, ap, ◌∙◌, sym}
use native.Mathlib.Nat.{pow-succ'}
use native.Mathlib.Omega.{arith}

-- The digits of the exclusive or do not depend on the fuel, once it covers the first operand.
xor_digits :
    (n m a b : ℕ) → a ≤ n → a ≤ m → digits (λ b. b) differ n a b ≡ digits (λ b. b) differ m a b
xor_digits zero zero a b p q = refl
xor_digits (suc n) zero (suc a) b p q = absurd (omega arith)
xor_digits zero (suc m) (suc a) b p q = absurd (omega arith)
xor_digits (suc n) zero zero b p q = refl
xor_digits zero (suc m) zero b p q = refl
xor_digits (suc n) (suc m) zero b p q = refl
xor_digits (suc n) (suc m) (suc a) b p q =
    rw (xor_digits n m (suc a / 2) (b / 2) (omega arith) (omega arith))

differ_bits : (x y : ℕ) → x < 2 → y < 2 → differ x y ≡ (x + y) % 2
differ_bits zero y p q = omega arith
differ_bits (suc zero) zero p q = refl
differ_bits (suc zero) (suc zero) p q = refl
differ_bits (suc zero) (suc (suc y)) p q = absurd (omega arith)
differ_bits (suc (suc x)) y p q = absurd (omega arith)

pub bit_xor-half : (a b : ℕ) → bit_xor a b ≡ 2 * bit_xor (a / 2) (b / 2) + (a % 2 + b % 2) % 2
bit_xor-half zero b = simp bit_xor-bitwise (omega arith)
bit_xor-half (suc a) b = omega (
  arith,
  bit_xor-bitwise (suc a) b,
  bit_xor-bitwise (suc a / 2) (b / 2),
  differ_bits (suc a % 2) (b % 2),
  xor_digits a (suc a / 2) (suc a / 2) (b / 2) (omega arith) (omega arith),
)

undo_below : (n a c : ℕ) → a ≤ n → c ≤ n → bit_xor (bit_xor a c) c ≡ a
undo_below zero a c p q =
    let a0 : a ≡ 0 = omega arith in let c0 : c ≡ 0 = omega arith in rw (a0, c0) refl
undo_below (suc n) a c p q =
    let half = bit_xor-half a c in
    let again = bit_xor-half (bit_xor a c) c in
    let ih = undo_below n (a / 2) (c / 2) (omega arith) (omega arith) in
    let mid : bit_xor a c / 2 ≡ bit_xor (a / 2) (c / 2) = omega arith in
    omega (arith, ap (λ x. bit_xor x (c / 2)) mid)

pub bit_xor_undo : (a c : ℕ) → bit_xor (bit_xor a c) c ≡ a
bit_xor_undo a c = undo_below (a + c) a c (omega arith) (omega arith)

pub bit_xor_injective : (a b c : ℕ) → bit_xor a c ≡ bit_xor b c → a ≡ b
bit_xor_injective a b c h = sym (bit_xor_undo a c) ∙ ap (λ x. bit_xor x c) h ∙ bit_xor_undo b c

pub bit_xor-lt : (w a b : ℕ) → a < 2 ^ w → b < 2 ^ w → bit_xor a b < 2 ^ w
bit_xor-lt zero a b p q =
    let a0 : a ≡ 0 = omega arith in let b0 : b ≡ 0 = omega arith in rw (a0, b0) (omega arith)
bit_xor-lt (suc w) a b p q =
    let two = pow-succ' 2 w in
    omega (arith, bit_xor-half a b, bit_xor-lt w (a / 2) (b / 2) (omega arith) (omega arith))

comm_below : (n a c : ℕ) → a ≤ n → c ≤ n → bit_xor a c ≡ bit_xor c a
comm_below zero a c p q =
    let a0 : a ≡ 0 = omega arith in let c0 : c ≡ 0 = omega arith in rw (a0, c0) refl
comm_below (suc n) a c p q = omega (
  arith,
  bit_xor-half a c,
  bit_xor-half c a,
  comm_below n (a / 2) (c / 2) (omega arith) (omega arith),
)

pub bit_xor_right : (c a b : ℕ) → bit_xor c a ≡ bit_xor c b → a ≡ b
bit_xor_right c a b h = bit_xor_injective a b c (
    comm_below (a + c) a c (omega arith) (omega arith)
    ∙ h
    ∙ comm_below (c + b) c b (omega arith) (omega arith))
