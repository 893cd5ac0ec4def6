-- ===== src/Dramblast/Find/Answers.antt =====
-- `dramblast_find_batch_sync` against its specification.
use mathlib.Core.List.{Perm}
use native.Mathlib.Nat.{add-zero, mod-eq_of_lt}
use net_blast.Base.{
  All, ℕ, ◌+◌, ◌*◌, ◌≤◌, ◌≡◌, ◌≢◌, refl, ap, arith, List, [], ◌∷◌, ◌++◌, map, length, length-map,
  get_elem?, set, some,
}
use net_blast.Capacity.{IsCapacity}
use net_blast.WordTable.{Pair, IsTable}
use net_blast.Dramblast.{Queue, Arg, Result, Ht, dramblast_hash}
use net_blast.Dramblast.Hash.{hash-lt}
use net_blast.Dramblast.Insert.Laws.{IsStore}
use net_blast.Dramblast.FindQueue.Fifo.{IsQueue, items}
use net_blast.Dramblast.Find.{first_item, find_batch_sync}
use net_blast.Dramblast.Find.Spec.{answer_to}
use net_blast.Dramblast.Find.Work.{cost}
use net_blast.Dramblast.Find.Fill.{to_do}
use net_blast.Dramblast.Find.Round.{Pending, reply_to}
use net_blast.Dramblast.Find.Batch.{batch-Runs}

module _ (crc : ℕ → ℕ) {len : ℕ} (valid : IsCapacity len) (roomy : 4 ≤ len) (table : List Pair)
    (ok : IsTable len (dramblast_hash crc len) table) where
  first_item-Pending :
      (arg : Arg) → arg.k ≢ 0 → Pending crc valid roomy table ok (first_item crc table len arg)
  unfolding first_item
  first_item-Pending arg ne = record {
    proper = ne;
    aligned = refl;
    inside = omega arith;
    here = rw (add-zero, mod-eq_of_lt (hash-lt valid crc arg.k).0) refl;
    passed = λ i h. absurd (omega arith);
  }

  All-Pending :
      (args : List Arg)
      → All (λ arg. arg.k ≢ 0) args
      → All (Pending crc valid roomy table ok) (map (first_item crc table len) args)
  All-Pending [] h = h
  All-Pending (arg ∷ args) h = (first_item-Pending arg h.0, All-Pending args h.1)

  all_replies :
      (args : List Arg)
      → map (reply_to crc valid roomy table ok) (map (first_item crc table len) args)
        ≡ map (answer_to crc table len) args
  unfolding first_item
  all_replies [] = refl
  all_replies (arg ∷ args) = ap (λ rs. answer_to crc table len arg ∷ rs) (all_replies args)

  all_costs : (args : List Arg) → cost len (map (first_item crc table len) args) ≡ len * length args
  unfolding first_item
  all_costs [] = omega arith
  all_costs (arg ∷ args) = omega (arith, all_costs args)

-- A batch as main.c passes it: a table in order, of at least one bucket; the queue of the core, which
-- is empty; and arguments whose keys are not 0.
pub record IsBatch (crc : ℕ → ℕ) (ht : Ht) (args : List Arg) (id : ℕ) (q : Queue) : Type 0 where
  pub store : IsStore crc ht
  pub roomy : 4 ≤ ht.len
  pub own : get_elem? ht.queues id ≡ some q
  pub queue : IsQueue q
  pub idle : items q ≡ []
  pub keys : All (λ arg. arg.k ≢ 0) args

-- On a batch as main.c passes it (a table in order, of at least one bucket and a length that -c
-- accepts; a valid queue of the core without items; keys other than 0) `dramblast_find_batch_sync`
-- ends, makes no access out of range, and writes one result for each argument, in some order: the answer of the specification, under the id of the argument. The table
-- is not changed, and the queue of the core is valid and empty again.
pub find_batch-answers :
    (crc : ℕ → ℕ) (ht : Ht) (args : List Arg) (id : ℕ) {q : Queue}
    → IsBatch crc ht args id q
    → (q' : Queue) × (results : List Result) × (find_batch_sync crc ht args id
        ≡ some (record ht { queues = set ht.queues id q' }, results))
      × IsQueue q'
      × (items q' ≡ [])
      × Perm results (map (answer_to crc ht.table ht.len) args)
unfolding find_batch_sync
find_batch-answers crc ht args id {q} b =
    let valid = b.store.capacity in
    let ok = b.store.table in
    let list : to_do crc ht.table ht.len q args ≡ map (first_item crc ht.table ht.len) args =
      ap (λ l. l ++ map (first_item crc ht.table ht.len) args) b.idle in
    let (q', results, e, v, em, p) =
      batch-Runs crc valid b.roomy ht.table ok (ht.len * length args + 1) (length args) q args []
        b.queue (rw list (All-Pending crc valid b.roomy ht.table ok args b.keys))
        (rw list (omega (arith, all_costs crc valid b.roomy ht.table ok args)))
        (rw (list, length-map) (omega arith)) in
    (
      q',
      results,
      rw (b.own, e),
      v,
      em,
      rw (list, all_replies crc valid b.roomy ht.table ok args) at p,
    )
