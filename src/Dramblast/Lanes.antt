-- ===== src/Dramblast/Lanes.antt =====
-- The vector instructions of the lookup, on the eight 64-bit lanes of a cache line: four pairs of
-- the table, whose keys are the even lanes.
pub mod Search
use net_blast.Base.{
  ℕ, zero, suc, ◌+◌, ◌*◌, ◌/◌, ◌%◌, ◌≡◌, ◌==◌, ◌&&◌, List, [], ◌∷◌, Option, some, none, get_elem?,
  ◌>>=◌, if◌then◌else◌,
}
use net_blast.WordTable.{Pair}

-- DRAMBLAST_SIMD_KEY_MASK, `0b01010101`
abbrev pub simd_key_mask : ℕ
simd_key_mask = 0b01010101

-- `_mm512_load_si512` of `(uint64_t *)&table[idx]`: 64 bytes on a 64-byte boundary. `none` is a
-- load that leaves the table or is not on a boundary.
unfoldable pub load_line : List Pair → ℕ → Option (List ℕ)
load_line table idx = if idx % 4 == 0 then words else none
  where
    words : Option (List ℕ)
    words = do
      a ← get_elem? table idx
      b ← get_elem? table (idx + 1)
      c ← get_elem? table (idx + 2)
      d ← get_elem? table (idx + 3)
      some (a.key ∷ a.value ∷ b.key ∷ b.value ∷ c.key ∷ c.value ∷ d.key ∷ d.value ∷ [])

-- `_mm512_mask_cmpeq_epu64_mask(mask, line, set1(k))`: bit `i` of the result is set where bit `i`
-- of the mask is and lane `i` is `k`.
unfoldable pub cmpeq_mask : ℕ → List ℕ → ℕ → ℕ
cmpeq_mask mask [] k = 0
cmpeq_mask mask (x ∷ line) k =
    (if mask % 2 == 1 && x == k then 1 else 0) + 2 * cmpeq_mask (mask / 2) line k

-- `__builtin_ctz` of a mask of at most `bits` bits that is not 0: the number of its lowest set bit.
unfoldable pub ctz : ℕ → ℕ → ℕ
ctz zero n = 0
ctz (suc bits) n = let above = ctz bits (n / 2) in if n % 2 == 1 then 0 else 1 + above
