-- ===== src/Pktgen/Command/Accepted.antt =====
-- Which options the generator accepts, and what they leave.
use native.Mathlib.Decide.{dec_lt}
use native.Mathlib.Nat.{mod_self, pow-le-pow_right, one-le-pow}
use net_blast.Base.{
  ℕ, ◌-◌, ◌^◌, ◌≤◌, ◌<◌, ◌≡◌, ◌⊎◌, inl, inr, refl, ap, ◌∙◌, arith, List, [], ◌∷◌, none, some, All,
  Bool-cases, ltb, ◌==◌, ==→eq, ==→ne, bit_and, bit_and_mask, u16, pos, negsuc,
}
use net_blast.Capacity.Accepted.{power_of_two}
use net_blast.Pktgen.{Globals}
use net_blast.Pktgen.Transmit.Flows.{IsMask}
use net_blast.Pktgen.Transmit.Bursts.{IsPayload}
use net_blast.Pktgen.Command.{
  GenOption, set_option, set_options, globals_of, default_globals, enforce_payload,
}

-- The numbers of the options are ints.
abbrev pub IsInt : GenOption → Type 0
IsInt (GenOption.range (pos n)) = n < 2 ^ 31
IsInt (GenOption.range (negsuc n)) = Unit {0}
IsInt (GenOption.payload (pos n)) = n < 2 ^ 31
IsInt (GenOption.payload (negsuc n)) = Unit {0}
IsInt GenOption.unknown = Unit {0}

-- The options that are to be accepted: a range that is a power of two, and a payload of at most 1400
-- bytes.
abbrev pub IsAcceptable : GenOption → Type 0
IsAcceptable (GenOption.range (pos n)) = (exponent : ℕ) × (n ≡ 2 ^ exponent)
IsAcceptable (GenOption.range (negsuc n)) = ⊥
IsAcceptable (GenOption.payload (pos n)) = n ≤ 1400
IsAcceptable (GenOption.payload (negsuc n)) = ⊥
IsAcceptable GenOption.unknown = Unit {0}

-- What the options may leave in the globals, before the minimum is enforced.
abbrev IsChosen : Globals → Type 0
IsChosen g = IsMask g.ip_mask × (g.payload_size ≤ 1400)

small_exponent : (exponent : ℕ) → 2 ^ exponent < 2 ^ 31 → exponent ≤ 30
small_exponent exponent h = elim (dec_lt 30 exponent) [
  | no p ↦ omega arith
  | yes p ↦ absurd (omega (arith, pow-le-pow_right {n = 2} (omega arith) {i = 31} {j = exponent} p))
]

no_shared : (n exponent : ℕ) → n ≡ 2 ^ exponent → bit_and n (n - 1) ≡ 0
no_shared n exponent e = rw e (bit_and_mask exponent (2 ^ exponent) ∙ mod_self _)

set_option-cases :
    (option : GenOption) (g : Globals)
    → IsInt option
    → IsChosen g
    → ((g' : Globals) × (set_option option g ≡ some g') × IsChosen g' × IsAcceptable option)
      ⊎ ((set_option option g ≡ none) × (¬ IsAcceptable option))
unfolding set_option
set_option-cases GenOption.unknown g int ok = inl (g, refl, ok, tt)
set_option-cases (GenOption.range (negsuc n)) g int ok = inr (refl, λ x. x)
set_option-cases (GenOption.payload (negsuc n)) g int ok = inr (refl, λ x. x)
set_option-cases (GenOption.payload (pos n)) g int ok = elim (Bool-cases (ltb 1400 n)) [
  | inl p ↦ inr (rw p refl, λ few. ground arith)
  | inr p ↦
      let few : n ≤ 1400 = ground arith in
      inl (record g { payload_size = u16 n }, rw p refl, (ok.0, omega arith), few)
]
set_option-cases (GenOption.range (pos n)) g int ok = elim (Bool-cases (n == 0)) [
  | inl z ↦ inr (
    rw z refl,
    λ a. let low = one-le-pow a.0 2 (omega arith) in let e = ==→eq n 0 z in omega (arith, a.1),
  )
  | inr z ↦ elim (Bool-cases (bit_and n (n - 1) == 0)) [
    | inr shared ↦
        inr (rw (z, shared) refl, λ a. ==→ne (bit_and n (n - 1)) 0 shared (no_shared n a.0 a.1))
    | inl apart ↦
        let ne = ==→ne n 0 z in
        let (exponent, power) =
          power_of_two n n (omega arith) (omega arith) (==→eq (bit_and n (n - 1)) 0 apart) in
        inl (
          record g { ip_mask = n - 1 },
          rw (z, apart) refl,
          (
            record {
              exponent = exponent;
              small = small_exponent exponent (omega (arith, power));
              power = ap (λ x. x - 1) power;
            },
            ok.1,
          ),
          (exponent, power),
        )
  ]
]

set_options-cases :
    (options : List GenOption) (g : Globals)
    → All IsInt options
    → IsChosen g
    → ((g' : Globals) × (set_options options g ≡ some g') × IsChosen g' × All IsAcceptable options)
      ⊎ ((set_options options g ≡ none) × (¬ All IsAcceptable options))
unfolding set_options
set_options-cases [] g ints ok = inl (g, refl, ok, tt)
set_options-cases (option ∷ options) g ints ok = elim (set_option-cases option g ints.0 ok) [
  | inr (e, bad) ↦ inr (rw e refl, λ all. bad all.0)
  | inl (g1, e, ok1, good) ↦ elim (set_options-cases options g1 ints.1 ok1) [
    | inr (e2, bad) ↦ inr (rw e e2, λ all. bad all.1)
    | inl (g2, e2, ok2, all) ↦ inl (g2, rw e e2, ok2, (good, all))
  ]
]

enforced :
    (g : Globals) → IsChosen g → IsMask (enforce_payload g).ip_mask × IsPayload (enforce_payload g)
enforced g ok = elim (Bool-cases (ltb g.payload_size 20)) [
  | inl p ↦ rw p (ok.0, (omega arith, omega arith))
  | inr p ↦ rw p (ok.0, (ground arith, ok.1))
]

-- Of options whose numbers are ints the generator accepts those whose ranges are powers of two and
-- whose payloads are of 0 to 1400 bytes, and ends the process if there is another. What it then
-- runs with is a mask of a power of two, less one, and a payload size from 20, the size of its
-- structure, to 1400.
pub globals_of-cases :
    (timer_hz : ℕ) (options : List GenOption)
    → All IsInt options
    → ((g : Globals) × (globals_of timer_hz options ≡ some g)
        × IsMask g.ip_mask
        × IsPayload g
        × All IsAcceptable options)
      ⊎ ((globals_of timer_hz options ≡ none) × (¬ All IsAcceptable options))
unfolding globals_of
globals_of-cases timer_hz options ints =
    let start : IsChosen (default_globals timer_hz) =
      (record { exponent = 8; small = omega arith; power = refl }, omega arith) in
    elim (set_options-cases options (default_globals timer_hz) ints start) [
      | inr (e, bad) ↦ inr (rw e refl, bad)
      | inl (g, e, ok, all) ↦
          let (mask, payload) = enforced g ok in
          inl (enforce_payload g, rw e refl, mask, payload, all)
    ]
