-- ===== src/Hashmap.antt =====
-- l2fwd/libsashstore/hashmap.c and hashmap.h, the map of maglev: `struct maglev_hashmap`, an array
-- of pairs of words that is searched by linear probing.
pub mod Insert
pub mod Get
use net_blast.Base.{
  ℕ, zero, suc, ◌+◌, ◌-◌, ◌≡◌, Bool, ◌==◌, List, get_elem?, ◌>>=◌, Option, none, some,
  if◌then◌else◌, bit_and, u64, sub64, ℤ, pos, minus_one,
}
use net_blast.WordTable.{Pair, try_pair, inserted_or}

-- `_mm_crc32_u64(0, k)` is an instruction of the processor; `CAPACITY` is a global of main.c.
module _ (crc : ℕ → ℕ) (capacity : ℕ) where
  unfoldable pub maglev_hash : ℕ → ℕ
  maglev_hash k = u64 (crc k)

  -- `maglev_hash(key) & (CAPACITY-1)`
  unfoldable pub home : ℕ → ℕ
  home k = bit_and (maglev_hash k) (sub64 capacity 1)

  -- the index of the probe number `i`: `(hash + i) & (CAPACITY-1)`
  unfoldable pub probe_index : ℕ → ℕ → ℕ
  probe_index hash i = bit_and (u64 (hash + i)) (sub64 capacity 1)

  -- The loop of `maglev_hashmap_insert` from the probe `i` on, with `n` rounds left: the result
  -- and the array. `none` is an access out of range.
  unfoldable pub insert_from : List Pair → ℕ → ℕ → ℕ → ℕ → ℕ → Option (ℤ × List Pair)
  insert_from pairs key value hash zero i = some (minus_one, pairs)
  insert_from pairs key value hash (suc n) i =
      let index = probe_index hash i in
      let next = insert_from pairs key value hash n (i + 1) in
      get_elem? pairs index >>= λ pair. inserted_or (try_pair pairs index pair key value) next

  unfoldable pub maglev_hashmap_insert : List Pair → ℕ → ℕ → Option (ℤ × List Pair)
  maglev_hashmap_insert pairs key value =
      if key == 0
      then some (minus_one, pairs)
      else insert_from pairs key value (home key) capacity 0

  -- The loop of `maglev_hashmap_get`. A pointer to a pair is its index, and NULL is `none`.
  unfoldable pub get_from : List Pair → ℕ → ℕ → ℕ → ℕ → Option (Option ℕ)
  get_from pairs key hash zero i = some none
  get_from pairs key hash (suc n) i =
      let index = probe_index hash i in
      let next = get_from pairs key hash n (i + 1) in
      get_elem? pairs index >>= λ pair.
      if pair.key == 0 then some none else if pair.key == key then some (some index) else next

  unfoldable pub maglev_hashmap_get : List Pair → ℕ → Option (Option ℕ)
  maglev_hashmap_get pairs key = get_from pairs key (home key) capacity 0
