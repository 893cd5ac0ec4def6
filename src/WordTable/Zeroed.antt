-- ===== src/WordTable/Zeroed.antt =====
-- Zeroed memory is a table in order, and stands for the empty map.
use native.Mathlib.Decide.{dec_lt}
use net_blast.Base.{
  ℕ, ◌≡◌, ◌≢◌, ap, ◌∙◌, sym, arith, List, length, fill_array, get_or-fill_array, length-fill_array,
  get_or_out, none, Option-cases, inl, inr, nat_eq,
}
use net_blast.Probe.View.{slot_of_view}
use net_blast.WordTable.{Pair, zero_pair, slots, layout, IsTable, contents}

module _ (size : ℕ) (home : ℕ → ℕ) (pairs : List Pair) (sized : length pairs ≡ size)
    (zero : (s : ℕ) → slots pairs s ≡ zero_pair) where
  pub zeroed-IsTable : IsTable size home pairs
  zeroed-IsTable = record {
    sized = sized;
    placed = λ s ne. absurd (ne (ap (λ x. x.key) (zero s)));
    clean = λ s _. ap (λ x. x.value) (zero s);
  }

  pub zeroed-contents : (q : ℕ) → q ≢ 0 → contents size home pairs q ≡ none
  zeroed-contents q ne = elim (Option-cases (contents size home pairs q)) [
    | inl h ↦ h
    | inr (v, h) ↦
        let (s, key, _) = slot_of_view (layout size home) (slots pairs) q h in
        absurd (ne (sym key ∙ ap (λ x. x.key) (zero s)))
  ]

-- The loop that zeroes the memory of a table.
pub fill_array-zero :
    (size : ℕ) (memory : List Pair)
    → length memory ≡ size
    → (s : ℕ) → slots (fill_array size 0 zero_pair memory) s ≡ zero_pair
fill_array-zero size memory sized s = elim (dec_lt s size) [
  | yes p ↦
      get_or-fill_array size 0 s zero_pair zero_pair memory (omega arith) (omega arith)
        (omega arith)
  | no p ↦ get_or_out _ s zero_pair (omega (arith, length-fill_array size 0 zero_pair memory))
]
