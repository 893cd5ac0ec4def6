-- ===== src/Hashmap/Get.antt =====
-- `maglev_hashmap_get`, and what it returns after an insertion.
use net_blast.Base.{
  ℕ, zero, suc, ◌+◌, ◌≤◌, ◌≡◌, ◌≢◌, ◌==◌, inl, inr, refl, arith, List, Option, none, some,
  if◌then◌else◌, pos, nat_eq, first, eq→==, ◌>>=◌, some_inj,
}
use net_blast.Probe.{Layout, stops, locate, spot, view, value_at}
use net_blast.Probe.Search.{locate-IsReached}
use net_blast.WordTable.{Pair, slots, layout, contents}
use net_blast.WordTable.Insertion.{read-spot}
use net_blast.Capacity.{IsCapacity}
use net_blast.Capacity.Mask.{capacity_bounds}
use net_blast.Hashmap.{home, get_from, maglev_hashmap_get, maglev_hashmap_insert}
use net_blast.Hashmap.Insert.{probe_index-spot, IsMap, insert-eq}

module _ (crc : ℕ → ℕ) {capacity : ℕ} (valid : IsCapacity capacity) where
  abbrev L : Layout ℕ
  L = layout capacity (home crc capacity)

  -- the pointer of a search that ended at a probe
  abbrev pointer : List Pair → ℕ → Option ℕ → Option ℕ
  pointer pairs k none = none
  pointer pairs k (some d) = if (slots pairs (spot L k d)).key == 0 then none else some (spot L k d)

  module _ (pairs : List Pair) (table : IsMap crc valid pairs) (k : ℕ) (k_ne : k ≢ 0) where
    get_from-pointer :
        (n i : ℕ)
        → i + n ≤ capacity
        → get_from crc capacity pairs k (home crc capacity k) n i
          ≡ some (pointer pairs k (first (stops L (slots pairs) k) n i))
    unfolding get_from first stops
    get_from-pointer zero i h = refl
    get_from-pointer (suc n) i h =
        rw
          (
            probe_index-spot crc valid k i (omega arith),
            read-spot capacity (home crc capacity) pairs table k k_ne i
                (omega (arith, capacity_bounds valid)),
          )
          (ground (arith, get_from-pointer n (i + 1)))

    pointer-value :
        (o : Option ℕ)
        → locate L (slots pairs) k ≡ o
        → (pointer pairs k o >>= λ index. some (slots pairs index))
          ≡ (value_at L (slots pairs) k o >>= λ v. some (record { key = k; value = v }))
    unfolding value_at
    pointer-value none e = refl
    pointer-value (some d) e = let (_, ends) = locate-IsReached L (slots pairs) k e in ground arith

    -- On an array in order, for a key other than 0, `maglev_hashmap_get` makes no access out of range, and reads the map: a null pointer for a
    -- key that is not bound, and else the pair that holds the key and its value.
    pub get-contents :
        (p : Option ℕ) × (maglev_hashmap_get crc capacity pairs k ≡ some p)
        × ((p >>= λ index. some (slots pairs index)) ≡ (
            contents capacity (home crc capacity) pairs k >>= λ v.
            some (record { key = k; value = v })))
    get-contents = (
      pointer pairs k (locate L (slots pairs) k),
      unfold maglev_hashmap_get locate in get_from-pointer capacity 0 (omega arith),
      unfold view in pointer-value (locate L (slots pairs) k) refl,
    )

  -- A key other than 0 that `maglev_hashmap_insert` just stored in an array in order is found again by `maglev_hashmap_get`,
  -- and the pair that it points to holds the stored value.
  pub get-insert :
      (pairs : List Pair)
      → IsMap crc valid pairs
      → (k : ℕ) → k ≢ 0
      → (v : ℕ) {pairs' : List Pair}
      → maglev_hashmap_insert crc capacity pairs k v ≡ some (pos 0, pairs')
      → (index : ℕ) × (maglev_hashmap_get crc capacity pairs' k ≡ some (some index))
        × (slots pairs' index ≡ record { key = k; value = v })
  get-insert pairs table k k_ne v {pairs'} stored =
      let r = insert-eq crc valid pairs table k k_ne v stored in
      let (p, e, read) = get-contents pairs' r.table k k_ne in
      let bound : contents capacity (home crc capacity) pairs' k ≡ some v = elim r.effect [
        | inl (_, h) ↦ rw (h k k_ne, eq→== k k refl)
        | inr (c, _, _) ↦ absurd (cc)
      ] in
      found p e (rw bound at read)
    where
      found :
          (p : Option ℕ)
          → maglev_hashmap_get crc capacity pairs' k ≡ some p
          → (p >>= λ index. some (slots pairs' index)) ≡ some (record { key = k; value = v })
          → (index : ℕ) × (maglev_hashmap_get crc capacity pairs' k ≡ some (some index))
            × (slots pairs' index ≡ record { key = k; value = v })
      found none e h = absurd (cc)
      found (some index) e h = (index, e, some_inj h)
