-- ===== src/Dramblast/Setup/Sizes.antt =====
-- What the sizes are: multiples of their alignment, and enough.
use net_blast.Base.{
  ℕ, ◌+◌, ◌-◌, ◌/◌, ◌%◌, ◌^◌, ◌<◌, ◌≤◌, ◌≡◌, ◌⊎◌, inl, inr, arith, ltb, bit_and, bit_and_shifted,
  bit_and_mask, u64, sub64, Bool-cases,
}
use net_blast.Dramblast.Setup.{get_aligned_table_size, alloc64_size, page_size_1gb, page_size_2mb}

high_mask_2mb : (x : ℕ) → x < 2 ^ 64 → bit_and x (2 ^ 64 - 2 ^ 21) ≡ x - x % 2 ^ 21
high_mask_2mb x h = omega (arith, bit_and_shifted 21 x (2 ^ 43 - 1), bit_and_mask 43 (x / 2 ^ 21))

high_mask_1gb : (x : ℕ) → x < 2 ^ 64 → bit_and x (2 ^ 64 - 2 ^ 30) ≡ x - x % 2 ^ 30
high_mask_1gb x h = omega (arith, bit_and_shifted 30 x (2 ^ 34 - 1), bit_and_mask 34 (x / 2 ^ 30))

high_mask_64 : (x : ℕ) → x < 2 ^ 64 → bit_and x (2 ^ 64 - 64) ≡ x - x % 64
high_mask_64 x h = omega (arith, bit_and_shifted 6 x (2 ^ 58 - 1), bit_and_mask 58 (x / 64))

-- The size of the mapping of a table is the least multiple of the page size that has room for it, where
-- the pages are of 1 GB for tables of more than that, and else of 2 MB.
pub get_aligned_table_size_lem :
    (bytes : ℕ)
    → bytes ≤ 2 ^ 36
    → ((2 ^ 30 < bytes)
        × (get_aligned_table_size bytes % 2 ^ 30 ≡ 0)
        × (bytes ≤ get_aligned_table_size bytes)
        × (get_aligned_table_size bytes < bytes + 2 ^ 30))
      ⊎ ((bytes ≤ 2 ^ 30)
          × (get_aligned_table_size bytes % 2 ^ 21 ≡ 0)
          × (bytes ≤ get_aligned_table_size bytes)
          × (get_aligned_table_size bytes < bytes + 2 ^ 21))
unfolding get_aligned_table_size
get_aligned_table_size_lem bytes h = elim (Bool-cases (ltb page_size_1gb bytes)) [
  | inl p ↦
      let up = high_mask_1gb (sub64 (u64 (bytes + page_size_1gb)) 1) (omega arith) in
      inl
        (ground arith, rw p (omega (arith, up)), rw p (omega (arith, up)), rw p (omega (arith, up)))
  | inr p ↦
      let up = high_mask_2mb (sub64 (u64 (bytes + page_size_2mb)) 1) (omega arith) in
      let small : bytes ≤ 2 ^ 30 = ground arith in
      inr (small, rw p (omega (arith, up)), rw p (omega (arith, up)), rw p (omega (arith, up)))
]

-- The size that `dramblast_alloc64` asks for is the least multiple of 64 that has room for `bytes`.
pub alloc64_size_lem :
    (bytes : ℕ)
    → bytes < 2 ^ 64 - 64
    → (alloc64_size bytes % 64 ≡ 0)
      × (bytes ≤ alloc64_size bytes)
      × (alloc64_size bytes < bytes + 64)
unfolding alloc64_size
alloc64_size_lem bytes h =
    let up = high_mask_64 (u64 (bytes + 63)) (omega arith) in
    (omega (arith, up), omega (arith, up), omega (arith, up))
