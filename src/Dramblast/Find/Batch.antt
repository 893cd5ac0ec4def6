-- ===== src/Dramblast/Find/Batch.antt =====
-- The whole lookup of a batch: it ends, and answers every argument once, in some order.
use mathlib.Core.List.{append-nil}
use mathlib.Core.List.Perm
use net_blast.Base.{
  All, ℕ, zero, suc, ◌+◌, ◌≤◌, ◌<◌, ◌≡◌, inl, inr, refl, ap, arith, List, [], ◌∷◌, ◌++◌, map,
  length, Option, length-append, lt→ltb, not-ltb,
}
use net_blast.Capacity.{IsCapacity}
use net_blast.WordTable.{Pair, IsTable}
use net_blast.Dramblast.{Item, Queue, Arg, Result, dramblast_hash}
use net_blast.Dramblast.FindQueue.{push_queue}
use net_blast.Dramblast.FindQueue.Fifo.{IsQueue, items, push_queue-items}
use net_blast.Dramblast.Find.{Probed, finished, again, first_item, batch}
use net_blast.Dramblast.Find.Fill.{to_do}
use net_blast.Dramblast.Find.Work.{
  All-append, All-split, List-cases, append_nil_left, cost, cost-append,
}
use net_blast.Dramblast.Find.Round.{
  Pending, reply_to, Runs, Runs-finished, Runs-again, IsRound, round-IsRound,
}

module _ (crc : ℕ → ℕ) {len : ℕ} (valid : IsCapacity len) (roomy : 4 ≤ len) (table : List Pair)
    (ok : IsTable len (dramblast_hash crc len) table) where
  abbrev P : Item → Type 0
  P = Pending crc valid roomy table ok

  abbrev R : List Item → List Result → Option (Queue × List Result) → Type 0
  R = Runs crc valid roomy table ok

  -- What the loop gives with the given fuel, from any state that needs less.
  abbrev LoopRuns : ℕ → ℕ → Type 0
  LoopRuns fuel args_len =
      (q : Queue) (rest : List Arg) (results : List Result)
      → IsQueue q
      → All P (to_do crc table len q rest)
      → cost len (to_do crc table len q rest) < fuel
      → length results + length (to_do crc table len q rest) ≡ args_len
      → R (to_do crc table len q rest) results (batch crc table len fuel args_len q rest results)

  module _ (fuel args_len : ℕ) (loop : LoopRuns fuel args_len) (x : Item) (todo : List Item)
      (q2 : Queue) (rest1 : List Arg) (results : List Result) (px : P x) (ps : All P todo)
      (c : cost len (x ∷ todo) < suc fuel) (n : length results + suc (length todo) ≡ args_len) where
    after_finished :
        (r : Result)
        → IsRound crc valid roomy table ok x todo q2 rest1 (finished r)
        → R (x ∷ todo) results (batch crc table len fuel args_len q2 rest1 (results ++ r ∷ []))
    after_finished r w = elim w.outcome [
      | inl e ↦
          let is_reply : r ≡ reply_to crc valid roomy table ok x = cc in
          let inside = px.inside in
          let run =
            loop q2 rest1 (results ++ r ∷ []) w.queue (rw w.left ps) (rw w.left (omega arith))
              (rw (w.left, length-append) (omega arith)) in
          Runs-finished crc valid roomy table ok x r todo results _ is_reply (rw w.left at run)
      | inr (next, e, _, _, _, _) ↦ cc
    ]

    after_again :
        (item : Item)
        → IsRound crc valid roomy table ok x todo q2 rest1 (again item)
        → R
            (x ∷ todo)
            results
            (batch crc table len fuel args_len (push_queue q2 item) rest1 results)
    after_again item w = elim w.outcome [
      | inl e ↦ cc
      | inr (next, e, pending, same_k, same_id, moved) ↦
          let is_next : item ≡ next = cc in
          let (vq, pushed) = push_queue-items w.queue item w.roomy_queue in
          let here : P item = rw is_next pending in
          let same_reply : reply_to crc valid roomy table ok item
              ≡ reply_to crc valid roomy table ok x =
            rw (is_next, same_k, same_id) refl in
          let visits : item.visit_count ≡ x.visit_count + 4 = rw is_next moved in
          let inside = here.inside in
          let others = map (first_item crc table len) rest1 in
          let (old, new) = All-split P (items q2) others (rw w.left ps) in
          let list : to_do crc table len (push_queue q2 item) rest1
              ≡ (items q2 ++ item ∷ []) ++ others =
            ap (λ l. l ++ others) pushed in
          let total = cost-append len (items q2) others in
          let size : length (items q2 ++ others) ≡ length todo = ap length w.left in
          let price : cost len (items q2 ++ others) ≡ cost len todo = ap (cost len) w.left in
          let run =
            loop (push_queue q2 item) rest1 results vq
              (rw list (
                All-append P (items q2 ++ item ∷ []) others
                  (All-append P (items q2) (item ∷ []) old (here, tt)) new))
              (rw (list, cost-append, cost-append) (omega arith))
              (rw (list, length-append, length-append)
                (omega (arith, length-append (items q2) others))) in
          rw w.left at (
            Runs-again crc valid roomy table ok x item (items q2) others results _ same_reply
              (rw list at run))
    ]

  after_round :
      (fuel args_len : ℕ) (x : Item) (todo : List Item) (q2 : Queue) (rest1 : List Arg)
      (results : List Result)
      → LoopRuns fuel args_len
      → P x
      → All P todo
      → cost len (x ∷ todo) < suc fuel
      → length results + suc (length todo) ≡ args_len
      → (probed : Probed) → IsRound crc valid roomy table ok x todo q2 rest1 probed
      → R (x ∷ todo) results (elim probed [
        | finished result ↦ batch crc table len fuel args_len q2 rest1 (results ++ result ∷ [])
        | again item ↦ batch crc table len fuel args_len (push_queue q2 item) rest1 results
      ])
  after_round fuel args_len x todo q2 rest1 results loop px ps c n (finished r) w =
      after_finished fuel args_len loop x todo q2 rest1 results px ps c n r w
  after_round fuel args_len x todo q2 rest1 results loop px ps c n (again item) w =
      after_again fuel args_len loop x todo q2 rest1 results px ps c n item w

  pub batch-Runs : (fuel args_len : ℕ) → LoopRuns fuel args_len
  unfolding batch
  batch-Runs zero args_len = λ q rest results vq ps c n. absurd (omega arith)
  batch-Runs (suc fuel) args_len = step (batch-Runs fuel args_len)
    where
      step : LoopRuns fuel args_len → LoopRuns (suc fuel) args_len
      step loop q rest results vq ps c n = elim (List-cases (to_do crc table len q rest)) [
        | inl e ↦ rw (not-ltb (length results) args_len (omega (arith, ap length e))) (
          q,
          results,
          refl,
          vq,
          append_nil_left (items q) _ e,
          rw (e, append-nil) (Perm.refl results),
        )
        | inr (x, todo, e) ↦
            let here : All P (x ∷ todo) = rw e at ps in
            let (probed, q2, rest1, e1, r) =
              round-IsRound crc valid roomy table ok q rest vq x todo e here.0 in
            let more = lt→ltb (length results) args_len (omega (arith, ap length e)) in
            rw (more, e1, e)
              (after_round fuel args_len x todo q2 rest1 results loop here.0 here.1 (rw e at c)
                (rw e at n) probed r)
      ]
