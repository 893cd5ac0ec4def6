-- ===== src/Dramblast/Find.antt =====
-- l2fwd/libsashstore/dramblast.c: `dramblast_find_batch_sync`, which looks up a batch of keys
-- through the find queue of one core.
pub mod Spec
pub mod Bucket
pub mod Window
pub mod Step
pub mod Fill
pub mod Work
pub mod Round
pub mod Batch
pub mod Answers
use net_blast.Base.{
  ℕ, zero, suc, ◌+◌, ◌-◌, ◌*◌, ◌==◌, ltb, leb, List, [], ◌∷◌, ◌++◌, length, get_elem?, set, ◌>>=◌,
  Option, none, some, if◌then◌else◌, bit_and, u64, sub64,
}
use net_blast.WordTable.{Pair}
use net_blast.Dramblast.{
  Status, found, absent, table_full, Result, Arg, Item, Queue, Ht, find_queue_size, bucket_idx_mask,
  dramblast_hash,
}
use net_blast.Dramblast.FindQueue.{get_queue_sz, push_queue, pop_queue}
use net_blast.Dramblast.Lanes.{simd_key_mask, load_line, cmpeq_mask, ctz}

-- What becomes of a popped item: its result is written, or it is pushed again for the next bucket.
pub data Probed : Type 0 where
  finished : Result → Probed
  again : Item → Probed

-- the branches for a bucket that does not hold the key
unfoldable pub next_bucket : ℕ → List ℕ → Item → Probed
next_bucket len line item =
    let count = u64 (item.visit_count + 4) in
    if leb len count
    then finished (record { v = 0; id = item.id; status = table_full })
    else if cmpeq_mask simd_key_mask line 0 == 0
    then again (record item {
      idx = bit_and (bit_and (u64 (item.idx + 4)) (sub64 len 1)) bucket_idx_mask;
      visit_count = count;
    })
    else finished (record { v = 0; id = item.id; status = absent })

-- The body of the loop behind `pop_find_queue`, on the popped item. `none` is a load out of range.
unfoldable pub probe_item : List Pair → ℕ → Item → Option Probed
probe_item table len item = load_line table item.idx >>= λ line.
    let key_cmp = cmpeq_mask simd_key_mask line item.k in
    if ltb 0 key_cmp
    then (get_elem? line (ctz 8 key_cmp + 1) >>= λ v.
        some (finished (record { v = v; id = item.id; status = found })))
    else some (next_bucket len line item)

module _ (crc : ℕ → ℕ) (table : List Pair) (len : ℕ) where
  -- the item that is pushed for an argument
  unfoldable pub first_item : Arg → Item
  first_item arg = record {
    k = arg.k;
    idx = dramblast_hash crc len arg.k;
    visit_count = 0;
    id = arg.id;
  }

  -- The inner loop, which pushes as many arguments as the queue takes. The list is
  -- `args[args_head..args_len)`, and what is left of it is returned.
  unfoldable pub fill : Queue → List Arg → Queue × List Arg
  fill q [] = (q, [])
  fill q (arg ∷ rest) =
      let filled = fill (push_queue q (first_item arg)) rest in
      if ltb (get_queue_sz q) (find_queue_size - 1) then filled else (q, arg ∷ rest)

  -- One round of the outer loop, up to what is done with the probed item: the queue is filled, and
  -- the oldest item is popped and probed.
  unfoldable pub round : Queue → List Arg → Option (Probed × Queue × List Arg)
  round q rest =
      let (q1, rest1) = fill q rest in
      pop_queue q1 >>= λ popped.
      probe_item table len popped.0 >>= λ probed. some (probed, popped.1, rest1)

  -- The outer loop: the queue and the results. `results` is the part of the array that is written,
  -- so its length is `result_head`. `none` is an access out of range, or that the fuel ran out.
  unfoldable pub batch : ℕ → ℕ → Queue → List Arg → List Result → Option (Queue × List Result)
  batch zero args_len q rest results = none
  batch (suc fuel) args_len q rest results =
      let further = round q rest >>= λ r. elim r.0 [
        | finished result ↦ batch fuel args_len r.1 r.2 (results ++ result ∷ [])
        | again item ↦ batch fuel args_len (push_queue r.1 item) r.2 results
      ] in
      if ltb (length results) args_len then further else some (q, results)

-- An item is probed in at most `len / 4` buckets, so `len` rounds for each argument are enough.
unfoldable pub find_batch_sync : (ℕ → ℕ) → Ht → List Arg → ℕ → Option (Ht × List Result)
find_batch_sync crc ht args id = get_elem? ht.queues id >>= λ q.
    batch crc ht.table ht.len (ht.len * length args + 1) (length args) q args [] >>= λ r.
    some (record ht { queues = set ht.queues id r.0 }, r.1)
