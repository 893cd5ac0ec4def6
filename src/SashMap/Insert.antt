-- ===== src/SashMap/Insert.antt =====
-- What `sashstore_hashmap_insert` does to the map.
use native.Mathlib.Nat.{mod-lt}
use net_blast.Base.{
  ℕ, zero, suc, ◌+◌, ◌<◌, ◌≡◌, ◌≢◌, ◌⊎◌, inl, inr, refl, ap, ◌∙◌, sym, arith, List, length,
  length-set, get_elem?, get_elem?-eq-get_or, get_or-set_self, get_or-set_ne, set, Option, none,
  some, if◌then◌else◌, Bool-cases, Option-cases, ==→eq, ==→ne, ◌==◌, same_list, list_eq, nat_eq,
  first,
}
use net_blast.Probe.{spot, stops, locate}
use net_blast.Probe.Search.{locate-IsReached, locate-none}
use net_blast.Probe.Write.{IsWritten, write-IsPlaced, view-write}
use net_blast.Capacity.{IsCapacity}
use net_blast.Fnv.{fnv_1}
use net_blast.SashMap.{
  KvPair, empty_key, key_size, value_size, insert_from, sashstore_hashmap_insert,
}
use net_blast.SashMap.Order.{empty_pair, slots, L, IsMap, contents, probe_index-spot, read-spot}

module _ {capacity : ℕ} (valid : IsCapacity capacity) where
  -- the array after a write at the probe `d` of the key `k`
  abbrev write_at : List KvPair → List ℕ → List ℕ → ℕ → List KvPair
  write_at pairs k v d = set pairs (spot (L valid) k d) (record { key = k; value = v })

  abbrev stored : List KvPair → List ℕ → List ℕ → Option ℕ → Option ℕ × List KvPair
  stored pairs k v none = (none, pairs)
  stored pairs k v (some d) = (some (spot (L valid) k d), write_at pairs k v d)

  -- An insertion of `v` at `k` into `pairs` that returned the pointer `p`, and its array.
  pub record Stores (pairs : List KvPair) (k v : List ℕ) (p : Option ℕ) (pairs' : List KvPair)
      : Type 0 where
    pub table : IsMap valid pairs'
    pub effect :
        ((index : ℕ) × (p ≡ some index)
          × (get_elem? pairs' index ≡ some (record { key = k; value = v }))
          × ((q : List ℕ)
              → q ≢ empty_key
              → contents valid pairs' q
                ≡ (if same_list q k then some v else contents valid pairs q)))
        ⊎ ((p ≡ none)
            × (pairs' ≡ pairs)
            × ((s : ℕ)
                → s < capacity
                → ((slots pairs s).key ≢ empty_key) × ((slots pairs s).key ≢ k)))

  module _ (pairs : List KvPair) (table : IsMap valid pairs) (k : List ℕ) where
    insert_from-stored :
        (v : List ℕ) (n i : ℕ)
        → insert_from capacity pairs k v (fnv_1 k) n i
          ≡ some (stored pairs k v (first (stops (L valid) (slots pairs) k) n i))
    unfolding insert_from first stops
    insert_from-stored v zero i = refl
    insert_from-stored v (suc n) i =
        rw (probe_index-spot valid k i, read-spot valid pairs table k i)
          (ground (arith, insert_from-stored v n (i + 1)))

    module _ (proper : k ≢ empty_key) (key_wide : length k ≡ key_size) (v : List ℕ)
        (value_wide : length v ≡ value_size) {d : ℕ}
        (found : locate (L valid) (slots pairs) k ≡ some d) where
      abbrev after : List KvPair
      after = write_at pairs k v d

      in_range : spot (L valid) k d < length pairs
      in_range =
          let (r, _) = locate-IsReached (L valid) (slots pairs) k found in
          rw table.sized (mod-lt ((L valid).home k + d) (omega (arith, r.bound)))

      write_at-IsWritten : IsWritten (L valid) (slots pairs) (slots after) k v d
      write_at-IsWritten = record {
        proper = proper;
        found = found;
        there =
            get_or-set_self pairs (spot (L valid) k d) (record { key = k; value = v }) empty_pair
              in_range;
        elsewhere = λ j ne.
            get_or-set_ne pairs (spot (L valid) k d) j (record { key = k; value = v }) empty_pair
              (λ e. ne (sym e));
      }

      wide :
          (s : ℕ)
          → (length (slots after s).key ≡ key_size) × (length (slots after s).value ≡ value_size)
      wide s = elim (Bool-cases (s == spot (L valid) k d)) [
        | inl p ↦ rw (==→eq _ _ p, write_at-IsWritten.there) (key_wide, value_wide)
        | inr p ↦
            rw (write_at-IsWritten.elsewhere s (==→ne _ _ p))
              (table.key_width s, table.value_width s)
      ]

      write_at-Stores : Stores pairs k v (some (spot (L valid) k d)) after
      write_at-Stores = record {
        table = record {
          sized = length-set pairs _ _ ∙ table.sized;
          placed = write-IsPlaced table.placed write_at-IsWritten;
          key_width = λ s. (wide s).0;
          value_width = λ s. (wide s).1;
        };
        effect = inl (
          spot (L valid) k d,
          refl,
          get_elem?-eq-get_or after (spot (L valid) k d) empty_pair (rw length-set in_range)
              ∙ ap some write_at-IsWritten.there,
          view-write table.placed write_at-IsWritten,
        );
      }

    -- On an array in order, of a capacity that -c accepts, `sashstore_hashmap_insert` of a key of
    -- 64 bytes that are not all 0 and of a value of 64 bytes makes no access out of range. Either
    -- it returns a pointer to the pair that now holds the two, and the key is bound to the value
    -- with every other binding kept, or it returns NULL, every pair holds another key, and the
    -- array is left as it was. The array stays in order.
    pub insert-Stores :
        (v : List ℕ)
        → k ≢ empty_key
        → length k ≡ key_size
        → length v ≡ value_size
        → (p : Option ℕ) × (pairs' : List KvPair) × (sashstore_hashmap_insert capacity pairs k v
            ≡ some (p, pairs'))
          × Stores pairs k v p pairs'
    unfolding sashstore_hashmap_insert locate
    insert-Stores v proper key_wide value_wide =
        let run = insert_from-stored v capacity 0 in
        elim (Option-cases (locate (L valid) (slots pairs) k)) [
          | inl h ↦ (
            none,
            pairs,
            run ∙ ap (λ o. some (stored pairs k v o)) h,
            record {
              table = table;
              effect = inr (refl, refl, λ s p. locate-none (L valid) (slots pairs) k h s p);
            },
          )
          | inr (d, h) ↦ (
            some (spot (L valid) k d),
            write_at pairs k v d,
            run ∙ ap (λ o. some (stored pairs k v o)) h,
            write_at-Stores proper key_wide v value_wide h,
          )
        ]
