-- ===== src/SashMap.antt =====
-- l2fwd/libsashstore/hashmap.c and hashmap.h, the map of sashstore: `struct sashstore_hashmap`, an
-- array of pairs of byte strings that is searched by linear probing.
pub mod Order
pub mod Insert
pub mod Get
use net_blast.Base.{
  ℕ, zero, suc, ◌+◌, ◌%◌, Bool, ◌||◌, List, get_elem?, set, replicate, ◌>>=◌, Option, none, some,
  if◌then◌else◌, u64, same_list, nat_eq,
}
use net_blast.Fnv.{fnv_1}
use net_blast.Probe.{Slot}

abbrev pub key_size : ℕ
key_size = 64

abbrev pub value_size : ℕ
value_size = 64

abbrev pub KvPair : Type 0
KvPair = Slot (List ℕ) (List ℕ)

abbrev pub empty_key : List ℕ
empty_key = replicate key_size 0

-- `CAPACITY` is a global of main.c.
module _ (capacity : ℕ) where
  -- the index of the probe number `i`: `(hash + i) % CAPACITY`
  unfoldable pub probe_index : ℕ → ℕ → ℕ
  probe_index hash i = u64 (hash + i) % capacity

  -- The loop of `sashstore_hashmap_insert` from the probe `i` on, with `n` rounds left: the pointer
  -- that it returns, as an index, and the array. `none` is an access out of range.
  unfoldable pub insert_from :
      List KvPair → List ℕ → List ℕ → ℕ → ℕ → ℕ → Option (Option ℕ × List KvPair)
  insert_from pairs key value hash zero i = some (none, pairs)
  insert_from pairs key value hash (suc n) i =
      let index = probe_index hash i in
      let next = insert_from pairs key value hash n (i + 1) in
      get_elem? pairs index >>= λ pair.
      if same_list pair.key key || same_list pair.key empty_key
      then some (some index, set pairs index (record { key = key; value = value }))
      else next

  unfoldable pub sashstore_hashmap_insert :
      List KvPair → List ℕ → List ℕ → Option (Option ℕ × List KvPair)
  sashstore_hashmap_insert pairs key value = insert_from pairs key value (fnv_1 key) capacity 0

  -- The loop of `sashstore_hashmap_get`. A pointer to a pair is its index, and NULL is `none`.
  unfoldable pub get_from : List KvPair → List ℕ → ℕ → ℕ → ℕ → Option (Option ℕ)
  get_from pairs key hash zero i = some none
  get_from pairs key hash (suc n) i =
      let index = probe_index hash i in
      let next = get_from pairs key hash n (i + 1) in
      get_elem? pairs index >>= λ pair.
      if same_list pair.key empty_key
      then some none
      else if same_list pair.key key
      then some (some index)
      else next

  unfoldable pub sashstore_hashmap_get : List KvPair → List ℕ → Option (Option ℕ)
  sashstore_hashmap_get pairs key = get_from pairs key (fnv_1 key) capacity 0
