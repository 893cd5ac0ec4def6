-- ===== src/Dramblast/Find/Window.antt =====
-- What the masks of a bucket say of the four probes that it stands for.
use net_blast.Base.{
  ℕ, zero, suc, ◌+◌, ◌-◌, ◌%◌, ◌≤◌, ◌<◌, ◌≡◌, ◌≢◌, inl, inr, ap, ◌∙◌, sym, arith, List, nat_eq,
  Option, some, none,
}
use native.Mathlib.Nat.{add-zero}
use net_blast.Capacity.{IsCapacity}
use net_blast.Probe.{spot}
use net_blast.WordTable.{Pair, slots, IsTable}
use net_blast.Dramblast.{dramblast_hash}
use net_blast.Dramblast.Lanes.Search.{value_in, value_in-some, value_in-none}
use net_blast.Dramblast.Find.Spec.{L}
use net_blast.Dramblast.Find.Bucket.{spot_in}

module _ (crc : ℕ → ℕ) {len : ℕ} (valid : IsCapacity len) (roomy : 4 ≤ len) (table : List Pair)
    (ok : IsTable len (dramblast_hash crc len) table) where
  abbrev pub at : ℕ → ℕ → Pair
  at k i = slots table (spot (L crc table len) k i)

  module _ (k c : ℕ) (aligned : c % 4 ≡ 0) (inside : c < len) where
    abbrev pub start : ℕ
    start = spot (L crc table len) k c

    abbrev pub bucket_value : ℕ → Option ℕ
    bucket_value q =
        value_in q (slots table start) (slots table (start + 1)) (slots table (start + 2))
          (slots table (start + 3))

    pair_at : (j : ℕ) → j < 4 → slots table (start + j) ≡ at k (c + j)
    pair_at j h = ap (slots table) (sym (spot_in valid roomy crc table k c aligned inside j h))

    first_pair : slots table start ≡ at k (c + 0)
    first_pair = ap (at k) (sym (add-zero c))

    abbrev pub Holds : ℕ → ℕ → Type 0
    Holds q v = (i : ℕ) × (c ≤ i) × (i < c + 4) × ((at k i).key ≡ q) × ((at k i).value ≡ v)

    Holds-at :
        (q v j : ℕ) {p : Pair} → j < 4 → p ≡ at k (c + j) → (p.key ≡ q) × (p.value ≡ v) → Holds q v
    Holds-at q v j h e (key, val) = (
      c + j,
      omega arith,
      omega arith,
      ap (λ x. x.key) (sym e) ∙ key,
      ap (λ x. x.value) (sym e) ∙ val,
    )

    -- A value that the masks find stands at one of the four probes of the bucket.
    pub bucket-Holds : (q v : ℕ) → bucket_value q ≡ some v → Holds q v
    bucket-Holds q v h =
        elim (value_in-some q (slots table start) (slots table (start + 1))
          (slots table (start + 2)) (slots table (start + 3)) v h) [
            | inl w ↦ Holds-at q v 0 (omega arith) first_pair w
            | inr (inl w) ↦ Holds-at q v 1 (omega arith) (pair_at 1 (omega arith)) w
            | inr (inr (inl w)) ↦ Holds-at q v 2 (omega arith) (pair_at 2 (omega arith)) w
            | inr (inr (inr w)) ↦ Holds-at q v 3 (omega arith) (pair_at 3 (omega arith)) w
          ]

    lacks_at : (q j : ℕ) → bucket_value q ≡ none → j < 4 → (at k (c + j)).key ≢ q
    lacks_at q j h lt =
        let (n0, n1, n2, n3) =
          value_in-none q (slots table start) (slots table (start + 1)) (slots table (start + 2))
            (slots table (start + 3)) h in
        choose j lt n0 n1 n2 n3
      where
        choose :
            (j : ℕ)
            → j < 4
            → (slots table start).key ≢ q
            → (slots table (start + 1)).key ≢ q
            → (slots table (start + 2)).key ≢ q
            → (slots table (start + 3)).key ≢ q
            → (at k (c + j)).key ≢ q
        choose zero lt n0 n1 n2 n3 = rw (← first_pair) n0
        choose (suc zero) lt n0 n1 n2 n3 = rw (← pair_at 1 (omega arith)) n1
        choose (suc (suc zero)) lt n0 n1 n2 n3 = rw (← pair_at 2 (omega arith)) n2
        choose (suc (suc (suc zero))) lt n0 n1 n2 n3 = rw (← pair_at 3 (omega arith)) n3
        choose (suc (suc (suc (suc j)))) lt n0 n1 n2 n3 = absurd (omega arith)

    -- A key that the masks do not find stands at none of the four probes.
    pub bucket_lacks :
        (q : ℕ) → bucket_value q ≡ none → (i : ℕ) → c ≤ i → i < c + 4 → (at k i).key ≢ q
    bucket_lacks q h i lo hi e =
        let i_eq : c + (i - c) ≡ i = omega arith in
        lacks_at q (i - c) h (omega arith) (ap (λ x. (at k x).key) i_eq ∙ e)
