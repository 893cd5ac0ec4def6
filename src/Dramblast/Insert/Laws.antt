-- ===== src/Dramblast/Insert/Laws.antt =====
-- `dramblast_insert_one`, for every key and every length that main.c accepts.
use native.Mathlib.Nat.{mod-lt, mod-add-mod, mod-eq_of_lt, add-zero}
use net_blast.Base.{
  subst, ℕ, zero, suc, ◌+◌, ◌-◌, ◌%◌, ◌^◌, ◌<◌, ◌≡◌, ◌≢◌, leb, inl, inr, true, false, Bool-cases,
  refl, ap, arith, List, Option, some, u64, sub64, bit_and, ℤ, minus_one, nat_eq, first, ne→==,
}
use net_blast.Probe.{Layout, stops, locate, spot}
use net_blast.WordTable.{Pair, slots, layout, IsTable, contents}
use net_blast.WordTable.Insertion.{answer, Inserts, read-spot, try_pair-stops, answer-Inserts}
use net_blast.Capacity.{IsCapacity}
use net_blast.Capacity.Mask.{capacity_bounds, mask-capacity}
use net_blast.Dramblast.{Ht, dramblast_hash}
use net_blast.Dramblast.Hash.{hash-lt}
use net_blast.Dramblast.Insert.{insert_from, dramblast_insert_one}

module _ (crc : ℕ → ℕ) where
  -- A table in order, of a length that main.c accepts.
  pub record IsStore (ht : Ht) : Type 0 where
    pub capacity : IsCapacity ht.len
    pub table : IsTable ht.len (dramblast_hash crc ht.len) ht.table

  -- the map that the table stands for
  abbrev pub binds : Ht → ℕ → Option ℕ
  binds ht = contents ht.len (dramblast_hash crc ht.len) ht.table

  module _ {len : ℕ} (valid : IsCapacity len) (table : List Pair)
      (ok : IsTable len (dramblast_hash crc len) table) (k : ℕ) (k_ne : k ≢ 0) where
    abbrev L : Layout ℕ
    L = layout len (dramblast_hash crc len)

    -- the index of the next round is that of the next probe
    pub next-spot :
        (i : ℕ) → i < len → bit_and (u64 (spot L k i + 1)) (sub64 len 1) ≡ spot L k (i + 1)
    next-spot i h =
        let b = capacity_bounds valid in
        let small = mod-lt (dramblast_hash crc len k + i) {m = len} (omega arith) in
        rw
          (
            mask-capacity valid,
            mod-eq_of_lt {n = spot L k i + 1} {m = 2 ^ 64} (omega arith),
            mod-add-mod,
          )
          (ap (λ x. x % len) (omega arith))

    last_round : (i : ℕ) → i + 1 ≡ len → leb len (u64 (i + 1)) ≡ true
    last_round i h = let b = capacity_bounds valid in ground arith

    more_rounds : (i n : ℕ) → i + suc (suc n) ≡ len → leb len (u64 (i + 1)) ≡ false
    more_rounds i n h = let b = capacity_bounds valid in ground arith

    insert_from-answer :
        (v n i : ℕ)
        → i + suc n ≡ len
        → insert_from (suc n) table len k v (spot L k i) i
          ≡ answer len
              (dramblast_hash crc len)
              table
              k
              v
              (first (stops L (slots table) k) (suc n) i)
    unfolding insert_from first
    insert_from-answer v zero i h =
        rw (read-spot len (dramblast_hash crc len) table ok k k_ne i (omega arith)) (
          rw (try_pair-stops len (dramblast_hash crc len) table ok k k_ne v i, last_round i h)
            (elim (Bool-cases (stops L (slots table) k i)) [ inl p ↦ rw p | inr p ↦ rw p ]))
    insert_from-answer v (suc n) i h =
        let b = capacity_bounds valid in
        rw (read-spot len (dramblast_hash crc len) table ok k k_ne i (omega arith)) (
          rw
            (
              try_pair-stops len (dramblast_hash crc len) table ok k k_ne v i,
              more_rounds i n h,
              next-spot i (omega arith),
              mod-eq_of_lt {n = i + 1} {m = 2 ^ 64} (omega arith),
            )
            (elim (Bool-cases (stops L (slots table) k i)) [
              | inl p ↦ rw p
              | inr p ↦ rw p (insert_from-answer v n (i + 1) (omega arith))
            ]))

    pub at_home : spot L k 0 ≡ dramblast_hash crc len k
    at_home = rw add-zero (mod-eq_of_lt (hash-lt valid crc k).0)

    pub loop-answer :
        (v : ℕ)
        → insert_from len table len k v (dramblast_hash crc len k) 0
          ≡ answer len (dramblast_hash crc len) table k v (locate L (slots table) k)
    unfolding locate
    loop-answer v =
        let b = capacity_bounds valid in
        let rounds : suc (len - 1) ≡ len = omega arith in
        let run = insert_from-answer v (len - 1) 0 (omega arith) in
        subst
          (λ n.
            insert_from n table len k v (dramblast_hash crc len k) 0
            ≡ answer len (dramblast_hash crc len) table k v (first (stops L (slots table) k) n 0))
          rounds (rw at_home at run)

  -- On a table in order, of a length that -c accepts, `dramblast_insert_one` of a key other than 0 ends
  -- within `len` rounds, with no access out of
  -- range, and changes nothing but the table. Either it returns 0 and the key is bound to the value,
  -- with every other binding kept, or it returns -1, the table is full of other keys and is left as
  -- it was. The table stays in order.
  pub insert_one-Inserts :
      (ht : Ht)
      → IsStore ht
      → (k : ℕ) → k ≢ 0
      → (v : ℕ)
      → (code : ℤ) × (table' : List Pair) × (dramblast_insert_one crc ht k v
          ≡ some (code, record ht { table = table' }))
        × Inserts ht.len (dramblast_hash crc ht.len) ht.table k v code table'
  unfolding dramblast_insert_one
  insert_one-Inserts ht store k k_ne v =
      let (code, table', e, r) =
        answer-Inserts ht.len (dramblast_hash crc ht.len) ht.table store.table k k_ne v in
      (
        code,
        table',
        rw (ne→== k 0 k_ne, loop-answer store.capacity ht.table store.table k k_ne v, e),
        r,
      )

  -- A call with the key 0 is refused, and changes nothing.
  pub insert_one-zero : (ht : Ht) (v : ℕ) → dramblast_insert_one crc ht 0 v ≡ some (minus_one, ht)
  unfolding dramblast_insert_one
  insert_one-zero ht v = refl
