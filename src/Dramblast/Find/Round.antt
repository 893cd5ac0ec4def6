-- ===== src/Dramblast/Find/Round.antt =====
-- One round of the outer loop, and what a run of it has to give.
use mathlib.Core.List.{Perm, perm_middle, append_assoc, map-append}
use mathlib.Core.List.Perm
use net_blast.Base.{
  ℕ, ◌≤◌, ◌<◌, ◌≡◌, inl, inr, refl, ap, ◌∙◌, sym, arith, List, [], ◌∷◌, ◌++◌, map, length, Option,
  some,
}
use net_blast.Capacity.{IsCapacity}
use net_blast.WordTable.{Pair, IsTable}
use net_blast.Dramblast.{Item, Queue, Arg, Result, dramblast_hash}
use net_blast.Dramblast.FindQueue.{get_queue_sz}
use net_blast.Dramblast.FindQueue.Fifo.{
  IsQueue, items, get_queue_sz-items, pop_queue-items, head_eq, tail_eq,
}
use net_blast.Dramblast.Find.{Probed, again, first_item, fill, round}
use net_blast.Dramblast.Find.Spec.{answer}
use net_blast.Dramblast.Find.Step.{IsPending, Advances, probe_item-Advances}
use net_blast.Dramblast.Find.Fill.{to_do, fill-IsFilled}
use net_blast.Dramblast.Find.Work.{List-cases}

module _ (crc : ℕ → ℕ) {len : ℕ} (valid : IsCapacity len) (roomy : 4 ≤ len) (table : List Pair)
    (ok : IsTable len (dramblast_hash crc len) table) where
  abbrev pub Pending : Item → Type 0
  Pending = IsPending crc valid roomy table ok

  abbrev pub reply_to : Item → Result
  reply_to item = answer crc table len item.k item.id

  -- What a run of the loop gives: it ends with an empty queue, and the results are those that it
  -- started from and the answers to what was to be done, in some order.
  abbrev pub Runs : List Item → List Result → Option (Queue × List Result) → Type 0
  Runs todo results o =
      (q' : Queue) × (results' : List Result) × (o ≡ some (q', results'))
      × IsQueue q'
      × (items q' ≡ [])
      × Perm results' (results ++ map reply_to todo)

  pub Runs-finished :
      (x : Item) (r : Result) (todo : List Item) (results : List Result)
      (o : Option (Queue × List Result))
      → r ≡ reply_to x
      → Runs todo (results ++ r ∷ []) o
      → Runs (x ∷ todo) results o
  Runs-finished x r todo results o same (q', rs, e, v, em, p) =
      (q', rs, e, v, em, rw (append_assoc, same) at p)

  pub Runs-again :
      (x x' : Item) (xs rest : List Item) (results : List Result) (o : Option (Queue × List Result))
      → reply_to x' ≡ reply_to x
      → Runs ((xs ++ x' ∷ []) ++ rest) results o
      → Runs (x ∷ (xs ++ rest)) results o
  Runs-again x x' xs rest results o same (q', rs, e, v, em, p) =
      (q', rs, e, v, em, Perm.trans p (Perm.append_left results moved))
    where
      moved : Perm (map reply_to ((xs ++ x' ∷ []) ++ rest)) (reply_to x ∷ map reply_to (xs ++ rest))
      moved =
          simp (map-append, append_assoc, same) (perm_middle (map reply_to xs) (map reply_to rest))

  -- What a round has done, where something is left to do: the item at the head is probed, and
  -- behind it the queue and the arguments are in order.
  pub record IsRound (x : Item) (todo : List Item) (q2 : Queue) (rest1 : List Arg) (probed : Probed)
      : Type 0 where
    pub queue : IsQueue q2
    pub roomy_queue : get_queue_sz q2 < 63
    pub left : to_do crc table len q2 rest1 ≡ todo
    pub outcome : Advances crc valid roomy table ok x (some probed)

  probed_of :
      (x : Item) (o : Option Probed)
      → Advances crc valid roomy table ok x o
      → (probed : Probed) × (o ≡ some probed) × Advances crc valid roomy table ok x (some probed)
  probed_of x o (inl e) = (_, e, inl refl)
  probed_of x o (inr (next, e, p, k, i, c)) = (again next, e, inr (next, refl, p, k, i, c))

  pub round-IsRound :
      (q : Queue) (rest : List Arg)
      → IsQueue q
      → (x : Item) (todo : List Item) → to_do crc table len q rest ≡ x ∷ todo
      → Pending x
      → (probed : Probed) × (q2 : Queue) × (rest1 : List Arg) × (round crc table len q rest
          ≡ some (probed, q2, rest1))
        × IsRound x todo q2 rest1 probed
  unfolding round
  round-IsRound q rest vq x todo e pending =
      let q1 = (fill crc table len q rest).0 in
      let rest1 = (fill crc table len q rest).1 in
      let f = fill-IsFilled crc table len rest q vq in
      elim (List-cases (items q1)) [
        | inl none_left ↦
            let empty : to_do crc table len q1 rest1 ≡ [] =
              rw (none_left, f.drained none_left) refl in
            absurd (omega (arith, ap length (sym empty ∙ f.same ∙ e)))
        | inr (y, ys, e1) ↦
            let (q2, popped, vq2, items2, _) = pop_queue-items f.queue e1 in
            let (probed, e2, r) =
              probed_of x _ (probe_item-Advances crc valid roomy table ok x pending) in
            let all : y ∷ (ys ++ map (first_item crc table len) rest1) ≡ x ∷ todo =
              rw e1 at (f.same ∙ e) in
            let (size, small) = get_queue_sz-items f.queue in
            let (size2, _) = get_queue_sz-items vq2 in
            (
              probed,
              q2,
              rest1,
              rw (popped, head_eq all, e2),
              record {
                queue = vq2;
                roomy_queue = omega (arith, ap length items2, ap length e1);
                left = rw items2 (tail_eq all);
                outcome = r;
              },
            )
      ]
