-- ===== src/Dramblast/Insert.antt =====
-- l2fwd/libsashstore/dramblast.c: `dramblast_insert_one`.
pub mod Laws
use net_blast.Base.{
  ℕ, zero, suc, ◌+◌, ◌==◌, leb, List, get_elem?, ◌>>=◌, Option, none, some, if◌then◌else◌, bit_and,
  u64, sub64, ℤ, minus_one,
}
use net_blast.WordTable.{Pair, try_pair, inserted_or}
use net_blast.Dramblast.{Ht, dramblast_hash}

-- The loop at the label `try_insert`: the code and the table. `none` is an access out of range, or
-- that the fuel ran out. The prefetch has no effect on the state.
unfoldable pub insert_from : ℕ → List Pair → ℕ → ℕ → ℕ → ℕ → ℕ → Option (ℤ × List Pair)
insert_from zero table len k v idx count = none
insert_from (suc fuel) table len k v idx count =
    let visited = u64 (count + 1) in
    let idx' = bit_and (u64 (idx + 1)) (sub64 len 1) in
    let again = insert_from fuel table len k v idx' visited in
    let failed = if leb len visited then some (minus_one, table) else again in
    get_elem? table idx >>= λ kv. inserted_or (try_pair table idx kv k v) failed

-- The count of visits ends the loop after `len` rounds, so that is the fuel.
unfoldable pub dramblast_insert_one : (ℕ → ℕ) → Ht → ℕ → ℕ → Option (ℤ × Ht)
dramblast_insert_one crc ht k v =
    if k == 0
    then some (minus_one, ht)
    else insert_from ht.len ht.table ht.len k v (dramblast_hash crc ht.len k) 0 >>= λ r.
        some (r.0, record ht { table = r.1 })
