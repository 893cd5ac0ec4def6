-- ===== src/Dramblast/Find/Fill.antt =====
-- The inner loop moves arguments into the queue, in order, and leaves it empty only if there are
-- no more of them.
use net_blast.Base.{
  ℕ, ◌≡◌, refl, ap, ◌∙◌, arith, List, [], ◌∷◌, ◌++◌, map, length, ltb, Bool-cases, inl, inr,
}
use mathlib.Core.List.{append_assoc}
use net_blast.WordTable.{Pair}
use net_blast.Dramblast.{Item, Queue, Arg}
use net_blast.Dramblast.FindQueue.{get_queue_sz, push_queue}
use net_blast.Dramblast.FindQueue.Fifo.{IsQueue, items, get_queue_sz-items, push_queue-items}
use net_blast.Dramblast.Find.{first_item, fill}

module _ (crc : ℕ → ℕ) (table : List Pair) (len : ℕ) where
  -- what is still to be looked up: the items of the queue, then the arguments that are left
  abbrev pub to_do : Queue → List Arg → List Item
  to_do q rest = items q ++ map (first_item crc table len) rest

  pub record IsFilled (q : Queue) (rest : List Arg) (q' : Queue) (rest' : List Arg) : Type 0 where
    pub queue : IsQueue q'
    pub same : to_do q' rest' ≡ to_do q rest
    pub drained : items q' ≡ [] → rest' ≡ []

  pub fill-IsFilled :
      (rest : List Arg) (q : Queue)
      → IsQueue q
      → IsFilled q rest (fill crc table len q rest).0 (fill crc table len q rest).1
  unfolding fill
  fill-IsFilled [] q valid = record { queue = valid; same = refl; drained = λ _. refl }
  fill-IsFilled (arg ∷ rest) q valid = elim (Bool-cases (ltb (get_queue_sz q) 63)) [
    | inl p ↦
        let (valid', pushed) =
          push_queue-items valid (first_item crc table len arg) (ground arith) in
        let r = fill-IsFilled rest (push_queue q (first_item crc table len arg)) valid' in
        rw p (record {
          queue = r.queue;
          same = r.same ∙ rw (pushed, append_assoc);
          drained = r.drained;
        })
    | inr p ↦
        let (size, _) = get_queue_sz-items valid in
        rw p (record {
          queue = valid;
          same = refl;
          drained = λ e. absurd (ground (arith, size, ap length e));
        })
  ]
