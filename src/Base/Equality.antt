-- ===== src/Base/Equality.antt =====
-- Equality tests as an interface, for the tables whose keys are words or byte strings.
use Prim.Native.Nat.{ℕ}
use mathlib.Core.Path.{◌≡◌, refl, ap₂}
use mathlib.Core.List.{List, [], ◌∷◌}
use mathlib.Core.Logic.{◌↔◌, ◌≢◌}
use mathlib.Core.Bool.{Bool, true, false, ◌&&◌}
use native.Mathlib.Omega.{arith}
use Prim.Native.Nat.{compare, Ordering}

pub record Eq {ℓ} (A : Type ℓ) : Type ℓ where
  pub same : A → A → Bool
  pub same_iff : (a b : A) → (same a b ≡ true) ↔ (a ≡ b)

abbrev pub same_nat : ℕ → ℕ → Bool
same_nat a b = elim (compare a b) [ Ordering.eq ↦ true | _ ↦ false ]

pub same_nat_iff : (a b : ℕ) → (same_nat a b ≡ true) ↔ (a ≡ b)
same_nat_iff a b = (λ h. ground arith, λ h. ground arith)

instance abbrev pub nat_eq : Eq ℕ
nat_eq = record { same = same_nat; same_iff = same_nat_iff }

module _ {ℓ} {A : Type ℓ} ⦃e : Eq A⦄ where
  pub same_refl : (a : A) → e.same a a ≡ true
  same_refl a = (e.same_iff a a).1 refl

  pub same_ne : (a b : A) → a ≢ b → e.same a b ≡ false
  same_ne a b h = ground (arith, (e.same_iff a b).0)

  pub ne_of_same : (a b : A) → e.same a b ≡ false → a ≢ b
  ne_of_same a b h eq = ground (arith, (e.same_iff a b).1 eq)

module _ {ℓ} {A : Type ℓ} ⦃e : Eq A⦄ where
  -- what `memcmp` finds out about two pieces of memory of the same length
  abbrev pub same_list : List A → List A → Bool
  same_list [] [] = true
  same_list [] (b ∷ ys) = false
  same_list (a ∷ xs) [] = false
  same_list (a ∷ xs) (b ∷ ys) = e.same a b && same_list xs ys

  pub same_list_sound : (xs ys : List A) → same_list xs ys ≡ true → xs ≡ ys
  same_list_sound [] [] h = refl
  same_list_sound [] (b ∷ ys) h = absurd (cc)
  same_list_sound (a ∷ xs) [] h = absurd (cc)
  same_list_sound (a ∷ xs) (b ∷ ys) h =
      let (p, q) = both h in ap₂ (λ x zs. x ∷ zs) ((e.same_iff a b).0 p) (same_list_sound xs ys q)
    where
      both : {p q : Bool} → p && q ≡ true → (p ≡ true) × (q ≡ true)
      both {p = true} h = (refl, h)
      both {p = false} h = absurd (cc)

  pub same_list_refl : (xs : List A) → same_list xs xs ≡ true
  same_list_refl [] = refl
  same_list_refl (a ∷ xs) = rw (same_refl a) (same_list_refl xs)

  instance abbrev pub list_eq : Eq (List A)
  list_eq = record {
    same = same_list;
    same_iff = λ xs ys. (same_list_sound xs ys, λ p. rw p (same_list_refl ys));
  }
