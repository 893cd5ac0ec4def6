-- ===== src/SashMap/Order.antt =====
-- When the array is in order, and the map that it stands for.
use native.Mathlib.Nat.{mod-lt, mod-add-mod}
use net_blast.Base.{
  ℕ, ◌+◌, ◌%◌, ◌≡◌, ◌∙◌, sym, arith, List, length, get_elem?, get_or, get_elem?-eq-get_or, Option,
  some, list_eq, nat_eq, replicate,
}
use net_blast.Probe.{Layout, IsPlaced, spot, view}
use net_blast.Capacity.{IsCapacity}
use net_blast.Capacity.Mask.{capacity_bounds, mod-wrap}
use net_blast.Fnv.{fnv_1}
use net_blast.SashMap.{KvPair, empty_key, key_size, value_size, probe_index}

abbrev pub empty_pair : KvPair
empty_pair = record { key = empty_key; value = replicate value_size 0 }

-- the array as the probing of `Probe` sees it
abbrev pub slots : List KvPair → ℕ → KvPair
slots pairs i = get_or pairs i empty_pair

module _ {capacity : ℕ} (valid : IsCapacity capacity) where
  abbrev pub L : Layout (List ℕ)
  L = record { vacant = empty_key; size = capacity; home = λ k. fnv_1 k % capacity }

  -- An array in order: CAPACITY pairs, each of a key and a value of their full widths, and every
  -- key where its search ends. The values of empty pairs are free.
  pub record IsMap (pairs : List KvPair) : Type 0 where
    pub sized : length pairs ≡ capacity
    pub placed : IsPlaced L (slots pairs)
    pub key_width : (s : ℕ) → length (slots pairs s).key ≡ key_size
    pub value_width : (s : ℕ) → length (slots pairs s).value ≡ value_size

  -- the map that the array stands for
  abbrev pub contents : List KvPair → List ℕ → Option (List ℕ)
  contents pairs = view L (slots pairs)

  pub probe_index-spot : (k : List ℕ) (i : ℕ) → probe_index capacity (fnv_1 k) i ≡ spot L k i
  unfolding probe_index
  probe_index-spot k i = mod-wrap valid (fnv_1 k + i) ∙ sym (mod-add-mod (fnv_1 k) capacity i)

  module _ (pairs : List KvPair) (table : IsMap pairs) (k : List ℕ) where
    pub read-spot : (i : ℕ) → get_elem? pairs (spot L k i) ≡ some (slots pairs (spot L k i))
    read-spot i =
        get_elem?-eq-get_or pairs (spot L k i) empty_pair
          (rw table.sized (mod-lt (L.home k + i) (omega (arith, capacity_bounds valid))))
