-- ===== src/Dramblast/Find/Work.antt =====
-- Lists of pending items: what holds of each, and how many rounds they can take.
use net_blast.Base.{All, ℕ, ◌+◌, ◌-◌, ◌≡◌, ◌⊎◌, inl, inr, refl, arith, List, [], ◌∷◌, ◌++◌}
use net_blast.Dramblast.{Item}

pub All-append :
    {A : Type 0} (P : A → Type 0) (xs ys : List A) → All P xs → All P ys → All P (xs ++ ys)
All-append P [] ys h k = k
All-append P (x ∷ xs) ys h k = (h.0, All-append P xs ys h.1 k)

pub All-split :
    {A : Type 0} (P : A → Type 0) (xs ys : List A) → All P (xs ++ ys) → All P xs × All P ys
All-split P [] ys h = (tt, h)
All-split P (x ∷ xs) ys h = let (a, b) = All-split P xs ys h.1 in ((h.0, a), b)

pub List-cases : {A : Type 0} (xs : List A) → (xs ≡ []) ⊎ ((x : A) × (ys : List A) × (xs ≡ x ∷ ys))
List-cases [] = inl refl
List-cases (x ∷ xs) = inr (x, xs, refl)

pub append_nil_left : {A : Type 0} (xs ys : List A) → xs ++ ys ≡ [] → xs ≡ []
append_nil_left [] ys e = refl
append_nil_left (x ∷ xs) ys e = cc

-- how many rounds a list of items can take at most
abbrev pub cost : ℕ → List Item → ℕ
cost len [] = 0
cost len (x ∷ xs) = len - x.visit_count + cost len xs

pub cost-append : (len : ℕ) (xs ys : List Item) → cost len (xs ++ ys) ≡ cost len xs + cost len ys
cost-append len [] ys = omega arith
cost-append len (x ∷ xs) ys = omega (arith, cost-append len xs ys)
