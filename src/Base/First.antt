-- ===== src/Base/First.antt =====
-- The first number of a range that passes a test.
use Prim.Native.Nat.{ℕ, zero, suc, ◌+◌, ◌≤◌, ◌<◌}
use mathlib.Core.Path.{◌≡◌, refl, ap, ◌∙◌}
use mathlib.Core.Bool.{Bool, true, false}
use mathlib.Core.Option.{Option, none, some}
use mathlib.Core.Logic.{inl, inr}
use native.Mathlib.Omega.{arith}
use net_blast.Base.Tests.{if◌then◌else◌, leb, Bool-cases}

module _ (stop : ℕ → Bool) where
  -- the first of the `n` numbers from `i` on
  unfoldable pub first : ℕ → ℕ → Option ℕ
  first zero i = none
  first (suc n) i = let rest = first n (i + 1) in if stop i then some i else rest

  -- What a result says of the tests.
  abbrev pub Ends : ℕ → ℕ → Option ℕ → Type 0
  Ends n i none = (j : ℕ) → i ≤ j → j < i + n → stop j ≡ false
  Ends n i (some d) =
      (i ≤ d) × (d < i + n) × (stop d ≡ true) × ((j : ℕ) → i ≤ j → j < d → stop j ≡ false)

  skip : (n i : ℕ) (o : Option ℕ) → stop i ≡ false → Ends n (i + 1) o → Ends (suc n) i o
  skip n i none here h = λ j a b. elim (Bool-cases (leb j i)) [
    | inl p ↦ let q : j ≡ i = ground arith in ap stop q ∙ here
    | inr p ↦ h j (ground arith) (omega arith)
  ]
  skip n i (some d) here h = (
    omega arith,
    omega arith,
    h.2,
    λ j a b. elim (Bool-cases (leb j i)) [
      | inl p ↦ let q : j ≡ i = ground arith in ap stop q ∙ here
      | inr p ↦ h.3 j (ground arith) b
    ],
  )

  pub first-Ends : (n i : ℕ) → Ends n i (first n i)
  unfolding first
  first-Ends zero i = λ j a b. absurd (omega arith)
  first-Ends (suc n) i = elim (Bool-cases (stop i)) [
    | inl p ↦ rw p (omega arith, omega arith, p, λ j a b. absurd (omega arith))
    | inr p ↦ rw p (skip n i (first n (i + 1)) p (first-Ends n (i + 1)))
  ]

  -- A number that passes is found, if no earlier one does.
  pub first-eq-some :
      (n i d : ℕ)
      → i ≤ d
      → d < i + n
      → stop d ≡ true
      → ((j : ℕ) → i ≤ j → j < d → stop j ≡ false)
      → first n i ≡ some d
  unfolding first
  first-eq-some zero i d a b p h = absurd (omega arith)
  first-eq-some (suc n) i d a b p h = elim (Bool-cases (leb d i)) [
    | inl q ↦ let r : i ≡ d = ground arith in rw (ap stop r ∙ p) (ap some r)
    | inr q ↦
        rw (h i (omega arith) (ground arith))
          (first-eq-some n (i + 1) d (ground arith) (omega arith) p (λ j u v. h j (omega arith) v))
  ]

  pub first-eq-none : (n i : ℕ) → ((j : ℕ) → i ≤ j → j < i + n → stop j ≡ false) → first n i ≡ none
  unfolding first
  first-eq-none zero i h = refl
  first-eq-none (suc n) i h =
      rw (h i (omega arith) (omega arith))
        (first-eq-none n (i + 1) (λ j u v. h j (omega arith) (omega arith)))
