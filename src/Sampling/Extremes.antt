-- ===== src/Sampling/Extremes.antt =====
-- The minimum and the maximum that are printed.
use net_blast.Base.{
  All, ℕ, ◌≤◌, ◌≡◌, ◌⊎◌, inl, inr, refl, ◌∙◌, arith, ltb, Bool-cases, List, [], ◌∷◌, some,
  if◌then◌else◌,
}
use net_blast.Sampling.{extremes, print_final_stats}

-- An element of a list, by its place.
abbrev pub OneOf : ℕ → List ℕ → Type 0
OneOf x [] = ⊥
OneOf x (y ∷ ys) = (x ≡ y) ⊎ OneOf x ys

pub record AreExtremes (samples : List ℕ) (min max : ℕ) : Type 0 where
  pub lower : All (λ x. min ≤ x) samples
  pub upper : All (λ x. x ≤ max) samples
  pub low : OneOf min samples
  pub high : OneOf max samples

-- the loop from the extremes `min` and `max` on
loop-Extremes :
    (samples : List ℕ) (min max : ℕ)
    → ((extremes samples min max).0 ≤ min)
      × (max ≤ (extremes samples min max).1)
      × All (λ x. (extremes samples min max).0 ≤ x) samples
      × All (λ x. x ≤ (extremes samples min max).1) samples
      × (((extremes samples min max).0 ≡ min) ⊎ OneOf (extremes samples min max).0 samples)
      × (((extremes samples min max).1 ≡ max) ⊎ OneOf (extremes samples min max).1 samples)
unfolding extremes
loop-Extremes [] min max = (omega arith, omega arith, tt, tt, inl refl, inl refl)
loop-Extremes (x ∷ samples) min max =
    let low = if ltb x min then x else min in
    let high = if ltb max x then x else max in
    let (a, b, lower, upper, c, d) = loop-Extremes samples low high in
    let low_le : (low ≤ min) × (low ≤ x) = (ground arith, ground arith) in
    let high_le : (max ≤ high) × (x ≤ high) = (ground arith, ground arith) in
    (
      omega (arith, low_le.0, a),
      omega (arith, high_le.0, b),
      (omega (arith, low_le.1, a), lower),
      (omega (arith, high_le.1, b), upper),
      elim c [
        | inr o ↦ inr (inr o)
        | inl e ↦ elim (Bool-cases (ltb x min)) [
          | inl p ↦ inr (inl (e ∙ rw p refl))
          | inr p ↦ inl (e ∙ rw p refl)
        ]
      ],
      elim d [
        | inr o ↦ inr (inr o)
        | inl e ↦ elim (Bool-cases (ltb max x)) [
          | inl p ↦ inr (inl (e ∙ rw p refl))
          | inr p ↦ inl (e ∙ rw p refl)
        ]
      ],
    )

-- `print_final_stats` of at least one sample prints a minimum and a maximum that are samples, between
-- which all samples lie.
pub print_final_stats-AreExtremes :
    (first : ℕ) (samples : List ℕ)
    → (min max : ℕ) × (print_final_stats (first ∷ samples) ≡ some (min, max))
      × AreExtremes (first ∷ samples) min max
unfolding print_final_stats
print_final_stats-AreExtremes first samples =
    let (a, b, lower, upper, c, d) = loop-Extremes (first ∷ samples) first first in
    (
      (extremes (first ∷ samples) first first).0,
      (extremes (first ∷ samples) first first).1,
      refl,
      record {
        lower = lower;
        upper = upper;
        low = elim c [ inl e ↦ inl e | inr o ↦ o ];
        high = elim d [ inl e ↦ inl e | inr o ↦ o ];
      },
    )
