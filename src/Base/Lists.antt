-- ===== src/Base/Lists.antt =====
-- C arrays as lists that are indexed by native numbers. A write out of range changes nothing.
use Prim.Native.Nat.{ℕ, zero, suc, ◌+◌, ◌≤◌, ◌<◌}
use mathlib.Core.Path.{◌≡◌, refl, ap, ◌∙◌}
use mathlib.Core.Logic.{◌≢◌}
use mathlib.Core.List.{List, [], ◌∷◌, ◌++◌, map}
use mathlib.Core.Option.{Option, none, some}
use native.Mathlib.Decide.{dec_lt}
use native.Mathlib.Omega.{arith}

module _ {ℓ} {A : Type ℓ} where
  abbrev pub length : List A → ℕ
  length [] = 0
  length (x ∷ xs) = suc (length xs)

  abbrev pub get_elem? : List A → ℕ → Option A
  get_elem? [] i = none
  get_elem? (x ∷ xs) zero = some x
  get_elem? (x ∷ xs) (suc i) = get_elem? xs i

  abbrev pub get_or : List A → ℕ → A → A
  get_or [] i d = d
  get_or (x ∷ xs) zero d = x
  get_or (x ∷ xs) (suc i) d = get_or xs i d

  abbrev pub set : List A → ℕ → A → List A
  set [] i v = []
  set (x ∷ xs) zero v = v ∷ xs
  set (x ∷ xs) (suc i) v = x ∷ set xs i v

  unfoldable pub replicate : ℕ → A → List A
  replicate zero a = []
  replicate (suc n) a = a ∷ replicate n a

  pub length-set : (xs : List A) (i : ℕ) (v : A) → length (set xs i v) ≡ length xs
  length-set [] i v = refl
  length-set (x ∷ xs) zero v = refl
  length-set (x ∷ xs) (suc i) v = ap suc (length-set xs i v)

  pub length-append : (xs ys : List A) → length (xs ++ ys) ≡ length xs + length ys
  length-append [] ys = omega arith
  length-append (x ∷ xs) ys = omega (arith, length-append xs ys)

  pub length-replicate : (n : ℕ) (a : A) → length (replicate n a) ≡ n
  unfolding replicate
  length-replicate zero a = refl
  length-replicate (suc n) a = ap suc (length-replicate n a)

  pub get_or-replicate : (n i : ℕ) (a : A) → get_or (replicate n a) i a ≡ a
  unfolding replicate
  get_or-replicate zero i a = refl
  get_or-replicate (suc n) zero a = refl
  get_or-replicate (suc n) (suc i) a = get_or-replicate n i a

  pub get_elem?-eq-get_or :
      (xs : List A) (i : ℕ) (d : A) → i < length xs → get_elem? xs i ≡ some (get_or xs i d)
  get_elem?-eq-get_or [] i d h = absurd (omega arith)
  get_elem?-eq-get_or (x ∷ xs) zero d h = refl
  get_elem?-eq-get_or (x ∷ xs) (suc i) d h = get_elem?-eq-get_or xs i d (omega arith)

  pub get_elem?_in_range : (xs : List A) (i : ℕ) {x : A} → get_elem? xs i ≡ some x → i < length xs
  get_elem?_in_range [] i h = absurd (cc)
  get_elem?_in_range (y ∷ xs) zero h = omega arith
  get_elem?_in_range (y ∷ xs) (suc i) h = let l = get_elem?_in_range xs i h in omega arith

  -- the first `n` elements
  unfoldable pub take : ℕ → List A → List A
  take zero xs = []
  take (suc n) [] = []
  take (suc n) (x ∷ xs) = x ∷ take n xs

  pub length-take : (n : ℕ) (xs : List A) → n ≤ length xs → length (take n xs) ≡ n
  unfolding take
  length-take zero xs h = refl
  length-take (suc n) [] h = absurd (omega arith)
  length-take (suc n) (x ∷ xs) h = ap suc (length-take n xs (omega arith))

  -- The first elements of a list that holds the same everywhere.
  pub get_or-take_same :
      (n : ℕ) (xs : List A) (d : A)
      → ((i : ℕ) → get_or xs i d ≡ d)
      → (i : ℕ) → get_or (take n xs) i d ≡ d
  unfolding take
  get_or-take_same zero xs d h i = refl
  get_or-take_same (suc n) [] d h i = refl
  get_or-take_same (suc n) (x ∷ xs) d h zero = h zero
  get_or-take_same (suc n) (x ∷ xs) d h (suc i) = get_or-take_same n xs d (λ j. h (suc j)) i

  pub get_elem?-set_self :
      (xs : List A) (i : ℕ) (v : A) → i < length xs → get_elem? (set xs i v) i ≡ some v
  get_elem?-set_self [] i v h = absurd (omega arith)
  get_elem?-set_self (x ∷ xs) zero v h = refl
  get_elem?-set_self (x ∷ xs) (suc i) v h = get_elem?-set_self xs i v (omega arith)

  pub get_or-set_self :
      (xs : List A) (i : ℕ) (v d : A) → i < length xs → get_or (set xs i v) i d ≡ v
  get_or-set_self [] i v d h = absurd (omega arith)
  get_or-set_self (x ∷ xs) zero v d h = refl
  get_or-set_self (x ∷ xs) (suc i) v d h = get_or-set_self xs i v d (omega arith)

  pub get_or-set_ne :
      (xs : List A) (i j : ℕ) (v d : A) → i ≢ j → get_or (set xs i v) j d ≡ get_or xs j d
  get_or-set_ne [] i j v d h = refl
  get_or-set_ne (x ∷ xs) zero zero v d h = absurd (h refl)
  get_or-set_ne (x ∷ xs) zero (suc j) v d h = refl
  get_or-set_ne (x ∷ xs) (suc i) zero v d h = refl
  get_or-set_ne (x ∷ xs) (suc i) (suc j) v d h = get_or-set_ne xs i j v d (λ e. h (ap suc e))

module _ {ℓ κ} {A : Type ℓ} {B : Type κ} where
  pub length-map : (f : A → B) (xs : List A) → length (map f xs) ≡ length xs
  length-map f [] = refl
  length-map f (x ∷ xs) = ap suc (length-map f xs)

module _ {ℓ} {A : Type ℓ} where
  -- `for (; i < i + n; i++) xs[i] = v`
  unfoldable pub fill_array : ℕ → ℕ → A → List A → List A
  fill_array zero i v xs = xs
  fill_array (suc n) i v xs = fill_array n (i + 1) v (set xs i v)

  pub length-fill_array : (n i : ℕ) (v : A) (xs : List A) → length (fill_array n i v xs) ≡ length xs
  unfolding fill_array
  length-fill_array zero i v xs = refl
  length-fill_array (suc n) i v xs = length-fill_array n (i + 1) v (set xs i v) ∙ length-set xs i v

  -- what is outside of the range stays
  get_or-fill_array_out :
      (n i j : ℕ) (v d : A) (xs : List A) → j < i → get_or (fill_array n i v xs) j d ≡ get_or xs j d
  unfolding fill_array
  get_or-fill_array_out zero i j v d xs h = refl
  get_or-fill_array_out (suc n) i j v d xs h =
      get_or-fill_array_out n (i + 1) j v d (set xs i v) (omega arith)
      ∙ get_or-set_ne xs i j v d (omega arith)

  pub get_or-fill_array :
      (n i j : ℕ) (v d : A) (xs : List A)
      → i ≤ j
      → j < i + n
      → i + n ≤ length xs
      → get_or (fill_array n i v xs) j d ≡ v
  unfolding fill_array
  get_or-fill_array zero i j v d xs lo hi len = absurd (omega arith)
  get_or-fill_array (suc n) i j v d xs lo hi len = elim (dec_lt i j) [
    | yes p ↦
        get_or-fill_array n (i + 1) j v d (set xs i v) (omega arith) (omega arith)
          (rw length-set (omega arith))
    | no p ↦
        let same : i ≡ j = omega arith in
        get_or-fill_array_out n (i + 1) j v d (set xs i v) (omega arith)
        ∙ rw same (get_or-set_self xs j v d (omega arith))
  ]

  pub get_or_out : (xs : List A) (i : ℕ) (d : A) → length xs ≤ i → get_or xs i d ≡ d
  get_or_out [] i d h = refl
  get_or_out (x ∷ xs) zero d h = absurd (omega arith)
  get_or_out (x ∷ xs) (suc i) d h = get_or_out xs i d (omega arith)
