-- ===== src/WordTable.antt =====
-- The memory that `struct maglev_hashmap` and `dramblast_ht_t` share in kind: an array of pairs of
-- 64-bit words, 16 bytes each, in which a zero key marks an empty pair. A pair is claimed by a
-- 128-bit compare-and-swap against zero.
pub mod Order
pub mod Insertion
pub mod Zeroed
use net_blast.Base.{
  ℕ, ◌≡◌, ◌<◌, Bool, false, ◌&&◌, ◌==◌, if◌then◌else◌, some, none, List, length, get_or, set,
  Option, nat_eq, ℤ, pos,
}
use net_blast.Probe.{Slot, Layout, IsPlaced, view, spot}

abbrev pub Pair : Type 0
Pair = Slot ℕ ℕ

-- a pair of zeroed memory
abbrev pub zero_pair : Pair
zero_pair = record { key = 0; value = 0 }

-- what the comparison of `__sync_bool_compare_and_swap(pair, 0, swapped)` finds
abbrev pub is_zero_pair : Pair → Bool
is_zero_pair p = p.key == 0 && p.value == 0

-- One probe of an insertion, on the pair at `index`: the array if the insertion ends there. An
-- empty pair is claimed by the compare-and-swap, which wants all 16 bytes to be zero; the value of
-- a pair that holds the key is replaced. (Nothing else writes the pair between its reads.)
unfoldable pub try_pair : List Pair → ℕ → Pair → ℕ → ℕ → Option (List Pair)
try_pair pairs index pair key value =
    if (if pair.key == 0 then is_zero_pair pair else false)
    then some (set pairs index (record { key = key; value = value }))
    else if pair.key == key
    then some (set pairs index (record pair { value = value }))
    else none

-- `return 0` with the array of the probe that ended the insertion, or what comes after the probe.
abbrev pub inserted_or : Option (List Pair) → Option (ℤ × List Pair) → Option (ℤ × List Pair)
inserted_or (some pairs) next = some (pos 0, pairs)
inserted_or none next = next

-- the array as the probing of `Probe` sees it
abbrev pub slots : List Pair → ℕ → Pair
slots pairs i = get_or pairs i zero_pair

-- The layout of an array of `size` pairs, with the home pairs of the keys.
abbrev pub layout : ℕ → (ℕ → ℕ) → Layout ℕ
layout size home = record { vacant = 0; size = size; home = home }

module _ (size : ℕ) (home : ℕ → ℕ) where
  -- The invariant: as many pairs as the layout says, every key where its search ends, and no value
  -- left in an empty pair, so that the compare-and-swap on it succeeds.
  pub record IsTable (pairs : List Pair) : Type 0 where
    pub sized : length pairs ≡ size
    pub placed : IsPlaced (layout size home) (slots pairs)
    pub clean : (s : ℕ) → (slots pairs s).key ≡ 0 → (slots pairs s).value ≡ 0

  -- the map that the array stands for
  abbrev pub contents : List Pair → ℕ → Option ℕ
  contents pairs = view (layout size home) (slots pairs)

  -- the array after a write at the probe `d` of the key `k`
  abbrev pub write_at : List Pair → ℕ → ℕ → ℕ → List Pair
  write_at pairs k v d = set pairs (spot (layout size home) k d) (record { key = k; value = v })
