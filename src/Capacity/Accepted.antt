-- ===== src/Capacity/Accepted.antt =====
-- Which capacities the option -c accepts.
use native.Mathlib.Decide.{dec_lt}
use native.Mathlib.Nat.{mod_self, pow-suc, pow-le-pow_right}
use native.Mathlib.Numerals.{unary_clauses}
use net_blast.Base.{
  ℕ, zero, suc, ◌-◌, ◌/◌, ◌%◌, ◌^◌, ◌≤◌, ◌<◌, ◌≡◌, ◌⊎◌, inl, inr, refl, ap, ◌∙◌, sym, arith, ◌==◌,
  bit_and, bit_and-half, bit_and_mask, sub64, none, some, Bool-cases, ltb, ==→eq,
}
use net_blast.Capacity.{parse_capacity, IsCapacity}
use net_blast.Capacity.Mask.{capacity_bounds, sub64-capacity}

bit_and_self : (n a : ℕ) → a ≤ n → bit_and a a ≡ a
bit_and_self n zero h = refl
bit_and_self zero (suc a) h = absurd (omega arith)
bit_and_self (suc n) (suc a) h =
    omega (arith, bit_and-half (suc a) (suc a), bit_and_self n (suc a / 2) (omega arith))

-- A number that shares no bit with its predecessor is a power of two.
pub power_of_two :
    (n c : ℕ) → c ≤ n → 0 < c → bit_and c (c - 1) ≡ 0 → (exponent : ℕ) × (c ≡ 2 ^ exponent)
power_of_two n zero h p e = absurd (omega arith)
power_of_two zero (suc c) h p e = absurd (omega arith)
power_of_two (suc n) (suc c) h p e0 =
    let e : bit_and (suc c) c ≡ 0 = simp unary_clauses at e0 in
    elim (dec_lt 0 c) [
      | no q ↦ (0, omega arith)
      | yes q ↦ elim (dec_lt 0 (suc c % 2)) [
        | yes odd ↦
            let half : suc c / 2 ≡ c / 2 = omega arith in
            absurd (
              omega (
                arith,
                bit_and-half (suc c) c,
                ap (bit_and (suc c / 2)) half,
                bit_and_self (suc c / 2) (suc c / 2) (omega arith),
              ))
        | no even ↦
            let below : c / 2 ≡ suc c / 2 - 1 = omega arith in
            let (exponent, power) =
              power_of_two n (suc c / 2) (omega arith) (omega arith)
                (omega (arith, bit_and-half (suc c) c, ap (bit_and (suc c / 2)) below)) in
            (suc exponent, omega (arith, pow-suc 2 exponent))
      ]
    ]

no_shared_bit : {c : ℕ} → IsCapacity c → bit_and c (sub64 c 1) ≡ 0
no_shared_bit {c} valid =
    rw (sub64-capacity valid, valid.power)
      (bit_and_mask valid.exponent (2 ^ valid.exponent) ∙ mod_self _)

small_exponent : (exponent : ℕ) → 2 ^ exponent ≤ 2 ^ 32 → exponent ≤ 32
small_exponent exponent h = elim (dec_lt 32 exponent) [
  | no p ↦ omega arith
  | yes p ↦ absurd (omega (arith, pow-le-pow_right {n = 2} (omega arith) {i = 33} {j = exponent} p))
]

-- Of the 64-bit numbers the option -c accepts the powers of two up to 2 ^ 32, which then are the
-- capacity, and no others.
pub parse_capacity-IsCapacity :
    (c : ℕ)
    → c < 2 ^ 64
    → ((parse_capacity c ≡ some c) × IsCapacity c) ⊎ ((parse_capacity c ≡ none) × (¬ IsCapacity c))
unfolding parse_capacity
parse_capacity-IsCapacity c h = elim (Bool-cases (c == 0)) [
  | inl z ↦ inr (rw z refl, λ valid. let b = capacity_bounds valid in ground arith)
  | inr z ↦ elim (Bool-cases (bit_and c (sub64 c 1) == 0)) [
    | inr shared ↦ inr (rw (z, shared) refl, λ valid. let s = no_shared_bit valid in ground arith)
    | inl apart ↦
        let positive : 0 < c = ground arith in
        let before : sub64 c 1 ≡ c - 1 = omega arith in
        elim (Bool-cases (ltb (2 ^ 32) c)) [
          | inl large ↦
              inr
                (rw (z, apart, large) refl, λ valid. let b = capacity_bounds valid in ground arith)
          | inr small ↦
              let (exponent, power) =
                power_of_two c c (omega arith) positive
                  (ap (bit_and c) (sym before) ∙ ==→eq (bit_and c (sub64 c 1)) 0 apart) in
              inl (
                rw (z, apart, small) refl,
                record {
                  exponent = exponent;
                  small = small_exponent exponent (rw (← power) (ground arith));
                  power = power;
                },
              )
        ]
  ]
]
