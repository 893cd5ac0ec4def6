-- ===== src/Dramblast/Lanes/Search.antt =====
-- What the masks say of the four pairs of a line.
use net_blast.Base.{
  ℕ, ◌+◌, ◌*◌, ◌%◌, ◌<◌, ◌≤◌, ◌≡◌, ◌≢◌, ◌==◌, ◌⊎◌, inl, inr, List, [], ◌∷◌, Option, some, none,
  get_elem?, if◌then◌else◌, arith, length, get_elem?-eq-get_or, refl, eq→==, Bool, true, false,
}
use net_blast.WordTable.{Pair, slots, zero_pair}
use net_blast.Dramblast.Lanes.{simd_key_mask, load_line, cmpeq_mask, ctz}

-- the eight words of four pairs
abbrev pub line_of : Pair → Pair → Pair → Pair → List ℕ
line_of a b c d = a.key ∷ a.value ∷ b.key ∷ b.value ∷ c.key ∷ c.value ∷ d.key ∷ d.value ∷ []

pub load_line-some :
    (table : List Pair) (idx : ℕ)
    → idx % 4 ≡ 0
    → idx + 4 ≤ length table
    → load_line table idx
      ≡ some (
          line_of
            (slots table idx)
            (slots table (idx + 1))
            (slots table (idx + 2))
            (slots table (idx + 3)))
unfolding load_line
load_line-some table idx aligned inside = rw (
  eq→== (idx % 4) 0 aligned,
  get_elem?-eq-get_or table idx zero_pair (omega arith),
  get_elem?-eq-get_or table (idx + 1) zero_pair (omega arith),
  get_elem?-eq-get_or table (idx + 2) zero_pair (omega arith),
  get_elem?-eq-get_or table (idx + 3) zero_pair (omega arith),
)

-- the value of the first of four pairs that holds a key
abbrev pub value_in : ℕ → Pair → Pair → Pair → Pair → Option ℕ
value_in k a b c d =
    if a.key == k
    then some a.value
    else if b.key == k
    then some b.value
    else if c.key == k
    then some c.value
    else if d.key == k
    then some d.value
    else none

abbrev bit : Bool → ℕ
bit true = 1
bit false = 0

-- the mask of a comparison whose key lanes are equal as told
abbrev mask_of : Bool → Bool → Bool → Bool → ℕ
mask_of p q r s = bit p + 4 * bit q + 16 * bit r + 64 * bit s

-- the lowest set bit of such a mask, and whether there is one
abbrev Lowest : Bool → Bool → Bool → Bool → ℕ → Type 0
Lowest true q r s n = (0 < n) × (ctz 8 n ≡ 0)
Lowest false true r s n = (0 < n) × (ctz 8 n ≡ 2)
Lowest false false true s n = (0 < n) × (ctz 8 n ≡ 4)
Lowest false false false true n = (0 < n) × (ctz 8 n ≡ 6)
Lowest false false false false n = n ≡ 0

mask_of-Lowest : (p q r s : Bool) → Lowest p q r s (mask_of p q r s)
unfolding ctz
mask_of-Lowest true true true true = (omega arith, refl)
mask_of-Lowest true true true false = (omega arith, refl)
mask_of-Lowest true true false true = (omega arith, refl)
mask_of-Lowest true true false false = (omega arith, refl)
mask_of-Lowest true false true true = (omega arith, refl)
mask_of-Lowest true false true false = (omega arith, refl)
mask_of-Lowest true false false true = (omega arith, refl)
mask_of-Lowest true false false false = (omega arith, refl)
mask_of-Lowest false true true true = (omega arith, refl)
mask_of-Lowest false true true false = (omega arith, refl)
mask_of-Lowest false true false true = (omega arith, refl)
mask_of-Lowest false true false false = (omega arith, refl)
mask_of-Lowest false false true true = (omega arith, refl)
mask_of-Lowest false false true false = (omega arith, refl)
mask_of-Lowest false false false true = (omega arith, refl)
mask_of-Lowest false false false false = refl

module _ (k : ℕ) (a b c d : Pair) where
  hits_sum :
      cmpeq_mask simd_key_mask (line_of a b c d) k
      ≡ mask_of (a.key == k) (b.key == k) (c.key == k) (d.key == k)
  unfolding cmpeq_mask
  hits_sum = ground arith

  abbrev pub Hits : ℕ → Option ℕ → Type 0
  Hits n o =
      ((o ≡ none) × (n ≡ 0))
      ⊎ ((v : ℕ) × (o ≡ some v) × (0 < n) × (get_elem? (line_of a b c d) (ctz 8 n + 1) ≡ some v))

  Hits-of_Lowest :
      (p q r s : Bool) (n : ℕ)
      → Lowest p q r s n
      → Hits n (
          if p
          then some a.value
          else if q
          then some b.value
          else if r
          then some c.value
          else if s
          then some d.value
          else none)
  Hits-of_Lowest true q r s n h = inr (a.value, refl, h.0, rw h.1)
  Hits-of_Lowest false true r s n h = inr (b.value, refl, h.0, rw h.1)
  Hits-of_Lowest false false true s n h = inr (c.value, refl, h.0, rw h.1)
  Hits-of_Lowest false false false true n h = inr (d.value, refl, h.0, rw h.1)
  Hits-of_Lowest false false false false n h = inl (refl, h)

  -- The mask is 0 exactly where no key lane is equal; else the lane behind its lowest set bit is the
  -- value of the first pair that holds the key.
  pub hits : Hits (cmpeq_mask simd_key_mask (line_of a b c d) k) (value_in k a b c d)
  hits = let (p, q, r, s) = tests in rw hits_sum (Hits-of_Lowest p q r s _ (mask_of-Lowest p q r s))
    where
      tests : Bool × Bool × Bool × Bool
      tests = (a.key == k, b.key == k, c.key == k, d.key == k)

  pub value_in-some :
      (v : ℕ)
      → value_in k a b c d ≡ some v
      → ((a.key ≡ k) × (a.value ≡ v))
        ⊎ ((b.key ≡ k) × (b.value ≡ v))
        ⊎ ((c.key ≡ k) × (c.value ≡ v))
        ⊎ ((d.key ≡ k) × (d.value ≡ v))
  value_in-some v h = ground arith

  pub value_in-none :
      value_in k a b c d ≡ none → (a.key ≢ k) × (b.key ≢ k) × (c.key ≢ k) × (d.key ≢ k)
  value_in-none h = ground arith
