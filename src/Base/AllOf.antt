-- ===== src/Base/AllOf.antt =====
-- What holds of every element of a list, whatever the order.
use mathlib.Core.List.{List, [], ◌∷◌, map, Perm, Permᴰ}
use mathlib.Core.Path.{◌≡◌, ap, ◌∙◌, refl, subst}
use mathlib.Core.Logic.{∥∥₁_elim}
use net_blast.Base.Lists.{length}
use native.Mathlib.Nat.{ℕ_set}
use Prim.Native.Nat.{suc}

abbrev pub All : {A : Type 0} → (A → Type 0) → List A → Type 0
All P [] = Unit {0}
All P (x ∷ xs) = P x × All P xs

pub All-map :
    {A B : Type 0} (f : A → B) (P : B → Type 0) (xs : List A)
    → All (λ x. P (f x)) xs
    → All P (map f xs)
All-map f P [] h = tt
All-map f P (x ∷ xs) h = (h.0, All-map f P xs h.1)

pub map-All :
    {A B : Type 0} (f : A → B) (P : B → Type 0) (xs : List A)
    → All P (map f xs)
    → All (λ x. P (f x)) xs
map-All f P [] h = tt
map-All f P (x ∷ xs) h = (h.0, map-All f P xs h.1)

pub All-weaken :
    {A : Type 0} {P Q : A → Type 0} → ((x : A) → P x → Q x) → (xs : List A) → All P xs → All Q xs
All-weaken f [] h = tt
All-weaken f (x ∷ xs) h = (f x h.0, All-weaken f xs h.1)

pub All-weaken₂ :
    {A : Type 0} {P Q R : A → Type 0}
    → ((x : A) → P x → Q x → R x)
    → (xs : List A) → All P xs
    → All Q xs
    → All R xs
All-weaken₂ f [] h k = tt
All-weaken₂ f (x ∷ xs) h k = (f x h.0 k.0, All-weaken₂ f xs h.1 k.1)

module _ {A : Type 0} where
  module _ (P : A → Type 0) (is_prop : (x : A) → IsProp (P x)) where
    All-IsProp : (xs : List A) → IsProp (All P xs)
    All-IsProp [] = hlevel
    All-IsProp (x ∷ xs) = hlevel (is_prop x, All-IsProp xs)

    All-Permᴰ : {xs ys : List A} → Permᴰ xs ys → All P xs → All P ys
    All-Permᴰ Permᴰ.nil h = tt
    All-Permᴰ (Permᴰ.cons e p) h = (subst P e h.0, All-Permᴰ p h.1)
    All-Permᴰ (Permᴰ.swap e f) h = (subst P f h.1.0, (subst P e h.0, h.1.1))
    All-Permᴰ (Permᴰ.trans p q) h = All-Permᴰ q (All-Permᴰ p h)

    pub All-Perm : {xs ys : List A} → Perm xs ys → All P xs → All P ys
    All-Perm {ys = ys} p h = ∥∥₁_elim p (All-IsProp ys) (λ d. All-Permᴰ d h)

  length-Permᴰ : {xs ys : List A} → Permᴰ xs ys → length xs ≡ length ys
  length-Permᴰ Permᴰ.nil = refl
  length-Permᴰ (Permᴰ.cons e p) = ap suc (length-Permᴰ p)
  length-Permᴰ (Permᴰ.swap e f) = refl
  length-Permᴰ (Permᴰ.trans p q) = length-Permᴰ p ∙ length-Permᴰ q

  pub length-Perm : {xs ys : List A} → Perm xs ys → length xs ≡ length ys
  length-Perm p = ∥∥₁_elim p (ℕ_set _ _) (λ d. length-Permᴰ d)
