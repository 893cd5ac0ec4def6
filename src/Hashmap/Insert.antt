-- ===== src/Hashmap/Insert.antt =====
-- `maglev_hashmap_insert`, for every key and every capacity that main.c accepts.
use native.Mathlib.Nat.{mod-lt}
use net_blast.Base.{
  subst, some_inj, ℕ, zero, suc, ◌+◌, ◌%◌, ◌≤◌, ◌<◌, ◌≡◌, ◌≢◌, inl, inr, Bool-cases, refl, ap, ◌∙◌,
  sym, arith, List, some, ℤ, nat_eq, first, ne→==,
}
use net_blast.Probe.{stops, locate, spot}
use net_blast.WordTable.{Pair, slots, layout, IsTable}
use net_blast.WordTable.Insertion.{answer, Inserts, read-spot, try_pair-stops, answer-Inserts}
use net_blast.Capacity.{IsCapacity}
use net_blast.Capacity.Mask.{capacity_bounds, mask-capacity}
use net_blast.Hashmap.{home, probe_index, insert_from, maglev_hashmap_insert}

module _ (crc : ℕ → ℕ) {capacity : ℕ} (valid : IsCapacity capacity) where
  pub home-lt : (k : ℕ) → home crc capacity k < capacity
  unfolding home
  home-lt k = rw (mask-capacity valid) (mod-lt _ (omega (arith, capacity_bounds valid)))

  -- The probes of the code are those of `Probe`: nothing wraps before the mask is applied.
  pub probe_index-spot :
      (k i : ℕ)
      → i ≤ capacity
      → probe_index crc capacity (home crc capacity k) i
        ≡ spot (layout capacity (home crc capacity)) k i
  unfolding probe_index
  probe_index-spot k i h =
      let b = capacity_bounds valid in
      let l = home-lt k in rw (mask-capacity valid) (ap (λ x. x % capacity) (omega arith))

  -- the arrays that `maglev_hashmap` may hold
  abbrev pub IsMap : List Pair → Type 0
  IsMap = IsTable capacity (home crc capacity)

  module _ (pairs : List Pair) (table : IsMap pairs) (k : ℕ) (k_ne : k ≢ 0) where
    insert_from-answer :
        (v n i : ℕ)
        → i + n ≤ capacity
        → insert_from crc capacity pairs k v (home crc capacity k) n i
          ≡ answer capacity
              (home crc capacity)
              pairs
              k
              v
              (first (stops (layout capacity (home crc capacity)) (slots pairs) k) n i)
    unfolding insert_from first
    insert_from-answer v zero i h = refl
    insert_from-answer v (suc n) i h =
        rw
          (
            probe_index-spot k i (omega arith),
            read-spot capacity (home crc capacity) pairs table k k_ne i
                (omega (arith, capacity_bounds valid)),
          )
          (rw (try_pair-stops capacity (home crc capacity) pairs table k k_ne v i)
            (elim (Bool-cases (stops (layout capacity (home crc capacity)) (slots pairs) k i)) [
              | inl p ↦ rw p refl
              | inr p ↦ rw p (insert_from-answer v n (i + 1) (omega arith))
            ]))

    insert-answer :
        (v : ℕ)
        → maglev_hashmap_insert crc capacity pairs k v
          ≡ answer capacity
              (home crc capacity)
              pairs
              k
              v
              (locate (layout capacity (home crc capacity)) (slots pairs) k)
    unfolding maglev_hashmap_insert locate
    insert-answer v = rw (ne→== k 0 k_ne) (insert_from-answer v capacity 0 (omega arith))

    -- On an array in order, of a capacity that -c accepts, `maglev_hashmap_insert` of a key other than
    -- 0 makes no access out of range. Either it returns
    -- 0 and the key is bound to the value, with every other binding kept, or it returns -1, the
    -- array is full of other keys and is left as it was. The array stays in order.
    pub insert-Inserts :
        (v : ℕ)
        → (code : ℤ) × (pairs' : List Pair) × (maglev_hashmap_insert crc capacity pairs k v
            ≡ some (code, pairs'))
          × Inserts capacity (home crc capacity) pairs k v code pairs'
    insert-Inserts v =
        let (code, pairs', e, r) =
          answer-Inserts capacity (home crc capacity) pairs table k k_ne v in
        (code, pairs', insert-answer v ∙ e, r)

    -- What a call that returned has done.
    pub insert-eq :
        (v : ℕ) {code : ℤ} {pairs' : List Pair}
        → maglev_hashmap_insert crc capacity pairs k v ≡ some (code, pairs')
        → Inserts capacity (home crc capacity) pairs k v code pairs'
    insert-eq v {code} {pairs'} h =
        let (c, ps, e, r) = insert-Inserts v in
        let same = some_inj (sym e ∙ h) in
        subst (λ x. Inserts capacity (home crc capacity) pairs k v x.0 x.1) same r
