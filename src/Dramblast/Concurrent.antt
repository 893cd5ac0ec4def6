-- ===== src/Dramblast/Concurrent.antt =====
-- l2fwd/libsashstore/dramblast.c: `dramblast_insert_one` run by several cores on the one table. An
-- access of a core to a pair, a load, a store or the compare-and-swap, is one step, which the other
-- cores see at once; between two steps of a core the others make any number of steps.
pub mod Calls
pub mod Effects
pub mod Steps
pub mod Schedules
pub mod Serial
pub mod Alone
pub mod Affinity
use net_blast.Base.{
  ℕ, ◌+◌, ◌==◌, leb, List, [], ◌∷◌, get_elem?, set, ◌>>=◌, Option, none, some, if◌then◌else◌,
  bit_and, u64, sub64, ℤ, pos, minus_one,
}
use net_blast.WordTable.{Pair, is_zero_pair}
use net_blast.Dramblast.{dramblast_hash}

-- the arguments and the local variables of a call
pub record Call : Type 0 where
  pub k : ℕ
  pub v : ℕ
  pub idx : ℕ
  pub count : ℕ

-- Where a core is: before the first load of `kv->k`, before the compare-and-swap, before the second
-- load of `kv->k`, before the store to `kv->v`, or returned.
pub data Core : Type 0 where
  loading claiming checking storing : Call → Core
  returned : Call → ℤ → Core

-- the start of a call, up to the label `try_insert`
unfoldable pub begin : (ℕ → ℕ) → ℕ → ℕ → ℕ → Core
begin crc len k v =
    let call : Call = record { k = k; v = v; idx = dramblast_hash crc len k; count = 0 } in
    if k == 0 then Core.returned call minus_one else Core.loading call

-- what follows a pair that holds another key
unfoldable pub advance : ℕ → Call → Core
advance len c =
    let next = record c { idx = bit_and (u64 (c.idx + 1)) (sub64 len 1) } in
    if leb len c.count then Core.returned next minus_one else Core.loading next

-- One step of a core; `none` is an access out of range.
unfoldable pub core_step : ℕ → List Pair → Core → Option (Core × List Pair)
core_step len table (Core.loading c) = get_elem? table c.idx >>= λ kv.
    let visited = record c { count = u64 (c.count + 1) } in
    some ((if kv.key == 0 then Core.claiming visited else Core.checking visited), table)
core_step len table (Core.claiming c) = get_elem? table c.idx >>= λ kv.
    if is_zero_pair kv
    then some (Core.returned c (pos 0), set table c.idx (record { key = c.k; value = c.v }))
    else some (Core.checking c, table)
core_step len table (Core.checking c) = get_elem? table c.idx >>= λ kv.
    some ((if kv.key == c.k then Core.storing c else advance len c), table)
core_step len table (Core.storing c) = get_elem? table c.idx >>= λ kv.
    some (Core.returned c (pos 0), set table c.idx (record kv { value = c.v }))
core_step len table (Core.returned c code) = some (Core.returned c code, table)

-- the table, and what each core does
pub record System : Type 0 where
  pub table : List Pair
  pub cores : ℕ → Core

-- The cores take their steps in the order of the schedule.
unfoldable pub interleave : ℕ → List ℕ → System → Option System
interleave len [] s = some s
interleave len (i ∷ schedule) s = core_step len s.table (s.cores i) >>= λ r.
    interleave len schedule (record { table = r.1; cores = λ j. if j == i then r.0 else s.cores j })
