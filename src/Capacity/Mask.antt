-- ===== src/Capacity/Mask.antt =====
-- Index arithmetic with a capacity: `x & (CAPACITY - 1)` is a remainder.
use native.Mathlib.Nat.{
  dvd_refl, dvd-mul_left_of_dvd, pow-suc, mod-mod_of_dvd, one-le-pow, pow-le-pow_right,
}
use Prim.Native.Nat.{◌∣◌}
use net_blast.Base.{
  ap, subst, zero, suc, ◌+◌, ℕ, ◌-◌, ◌%◌, ◌^◌, ◌≤◌, ◌≡◌, arith, bit_and, sub64, bit_and_mask,
}
use net_blast.Capacity.{IsCapacity}

-- A power of two divides the higher ones.
pow-divides : (e d : ℕ) → 2 ^ e ∣ 2 ^ (d + e)
pow-divides e zero = subst (λ n. 2 ^ e ∣ 2 ^ n) {y = 0 + e} (omega arith) (dvd_refl (2 ^ e))
pow-divides e (suc d) =
    let carry : suc d + e ≡ suc (d + e) = omega arith in
    subst (λ n. 2 ^ e ∣ n) {y = 2 ^ (suc d + e)}
      (omega (arith, pow-suc 2 (d + e), ap (λ n. 2 ^ n) carry))
      (dvd-mul_left_of_dvd (2 ^ e) (pow-divides e d) 2)

module _ {c : ℕ} (valid : IsCapacity c) where
  pub capacity_bounds : (1 ≤ c) × (c ≤ 2 ^ 32)
  capacity_bounds =
      rw valid.power
        (one-le-pow valid.exponent 2 (omega arith), pow-le-pow_right (omega arith) valid.small)

  pub sub64-capacity : sub64 c 1 ≡ c - 1
  sub64-capacity = let b = capacity_bounds in omega arith

  pub mask-capacity : (x : ℕ) → bit_and x (sub64 c 1) ≡ x % c
  mask-capacity x = rw (sub64-capacity, valid.power) (bit_and_mask valid.exponent x)

  -- The wrap-around at 64 bits is not seen by an index.
  pub mod-wrap : (x : ℕ) → x % 2 ^ 64 % c ≡ x % c
  mod-wrap x = mod-mod_of_dvd c x (
      rw valid.power (
        subst (λ n. 2 ^ valid.exponent ∣ 2 ^ n) {y = 64} (let small = valid.small in omega arith)
          (pow-divides valid.exponent (64 - valid.exponent))))
