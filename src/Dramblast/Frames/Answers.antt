-- ===== src/Dramblast/Frames/Answers.antt =====
-- `dramblast_process_frames` against its specification.
use mathlib.Core.List.{Perm}
use mathlib.Core.List.Perm
use native.Mathlib.Nat.{ℕ_set}
use net_blast.Base.{
  All, All-map, map-All, All-weaken, All-weaken₂, get_elem?_in_range, get_elem?-set_self, ◌<◌,
  All-Perm, length-Perm, ℕ, ◌≤◌, ◌≡◌, ◌≢◌, inl, inr, refl, ap, ◌∙◌, sym, ap₂, List, [], map, length,
  length-map, get_elem?, set, get_or, some, nat_eq, eq→==,
}
use net_blast.WordTable.{Pair}
use net_blast.Conshash.{LookUpTable, table_size}
use net_blast.Conshash.Fill.{mac_of}
use net_blast.Dramblast.{Status, Result, Arg, Queue, Ht}
use net_blast.Dramblast.Insert.Laws.{IsStore, binds}
use net_blast.Dramblast.FindQueue.Fifo.{IsQueue, items}
use net_blast.Dramblast.Find.Spec.{answer, answer_to}
use net_blast.Dramblast.Find.Answers.{IsBatch, find_batch-answers}
use net_blast.Dramblast.Frames.{dramblast_process_frames}
use net_blast.Dramblast.Frames.Spec.{key_at, bound, Keeps, IsReply, Tells}
use net_blast.Dramblast.Frames.Settle.{answer-cases}
use net_blast.Dramblast.Frames.Loop.{settle_all-SettlesAll}

Status-IsSet : IsSet Status
Status-IsSet = hlevel

Result-IsSet : IsSet Result
Result-IsSet = hlevel (ℕ_set, Status-IsSet)

-- The id of an argument is its index, as main.c numbers them.
abbrev pub AreNumbered : List Arg → Type 0
AreNumbered args = All (λ arg. get_elem? args arg.id ≡ some arg) args

key_at-number :
    (args : List Arg) (arg : Arg) → get_elem? args arg.id ≡ some arg → key_at args arg.id ≡ arg.k
key_at-number args arg e = rw (key_at, e) refl

module _ (crc : ℕ → ℕ) (ht : Ht) (args : List Arg) where
  answer-id : (k id : ℕ) → (answer crc ht.table ht.len k id).id ≡ id
  answer-id k id = elim (answer-cases crc ht.table ht.len k id) [
    | inl (v, _, e) ↦ ap (λ r. r.id) e
    | inr (inl (_, e, _)) ↦ ap (λ r. r.id) e
    | inr (inr (_, e, _)) ↦ ap (λ r. r.id) e
  ]

  answer_to-IsReply :
      (arg : Arg)
      → arg.k ≢ 0
      → get_elem? args arg.id ≡ some arg
      → IsReply crc ht.len ht.table args (answer_to crc ht.table ht.len arg)
  answer_to-IsReply arg k_ne e =
      let number = answer-id arg.k arg.id in
      let key = ap (key_at args) number ∙ key_at-number args arg e in
      (λ z. k_ne (sym key ∙ z), sym (ap₂ (answer crc ht.table ht.len) key number))

  IsReply-IsProp : (r : Result) → IsProp (IsReply crc ht.len ht.table args r)
  IsReply-IsProp r = hlevel Result-IsSet

  All-replies :
      (results : List Result)
      → Perm results (map (answer_to crc ht.table ht.len) args)
      → All (λ arg. arg.k ≢ 0) args
      → AreNumbered args
      → All (IsReply crc ht.len ht.table args) results
  All-replies results p keys numbers =
      All-Perm (IsReply crc ht.len ht.table args) IsReply-IsProp (Perm.symm p) (
        All-map (answer_to crc ht.table ht.len) (IsReply crc ht.len ht.table args) args
          (All-weaken₂ answer_to-IsReply args keys numbers))

  -- the MACs of the arguments, from those of the results
  All-macs :
      (results : List Result)
      → Perm results (map (answer_to crc ht.table ht.len) args)
      → AreNumbered args
      → (table' : List Pair) (ret : List ℕ)
      → All (λ r. Tells crc ht.len table' args ret r.id) results
      → All (λ arg. get_or ret arg.id 0 ≡ mac_of (bound crc ht.len table' arg.k)) args
  All-macs results p numbers table' ret told = All-weaken₂ mac_of_result args numbers (
      map-All (answer_to crc ht.table ht.len) (λ r. Tells crc ht.len table' args ret r.id) args
        (All-Perm (λ r. Tells crc ht.len table' args ret r.id) (λ r. hlevel ℕ_set) p told))
    where
      mac_of_result :
          (arg : Arg)
          → get_elem? args arg.id ≡ some arg
          → Tells crc ht.len table' args ret (answer_to crc ht.table ht.len arg).id
          → get_or ret arg.id 0 ≡ mac_of (bound crc ht.len table' arg.k)
      mac_of_result arg e t = rw (answer-id arg.k arg.id, key_at-number args arg e) at t

-- What a call has done that left `ht'` and `ret'`.
pub record ProcessesBatch (crc : ℕ → ℕ) (backends : LookUpTable) (ht : Ht) (args : List Arg)
    (ret : List ℕ) (id : ℕ) (ht' : Ht) (ret' : List ℕ) : Type 0 where
  pub store : IsStore crc ht'
  pub same_len : ht'.len ≡ ht.len
  pub size : length ret' ≡ length ret
  pub keeps : Keeps crc ht.len backends ht.table ht'.table
  pub macs : All (λ arg. get_or ret' arg.id 0 ≡ mac_of (binds crc ht' arg.k)) args
  pub idle : (q' : Queue) × (get_elem? ht'.queues id ≡ some q') × IsQueue q' × (items q' ≡ [])

-- `dramblast_process_frames` on a batch as main.c passes it, numbered by index, with a
-- place in `ret` for each argument and TABLE_SIZE backends, ends and makes no access out of range. Afterwards `ret` has for each argument
-- the MAC that the table binds to its key, 0 if it binds none. Flows that were absent may have become
-- bound to their backend; no other binding is new, and none is dropped or changed. The table is in
-- order, and the queue of the core is valid and empty again.
pub process_frames-ProcessesBatch :
    (crc : ℕ → ℕ) (backends : LookUpTable) (ht : Ht) (args : List Arg) (ret : List ℕ) (id : ℕ)
    {q : Queue}
    → IsBatch crc ht args id q
    → length backends ≡ table_size
    → AreNumbered args
    → length args ≤ length ret
    → (ht' : Ht) × (ret' : List ℕ) × (dramblast_process_frames crc backends ht args ret id
        ≡ some (ht', ret'))
      × ProcessesBatch crc backends ht args ret id ht' ret'
unfolding dramblast_process_frames
process_frames-ProcessesBatch crc backends ht args ret id {q} b entries numbers room =
    let (q', results, found, v, em, p) = find_batch-answers crc ht args id b in
    let valid = b.store.capacity in
    let queues = set ht.queues id q' in
    let replies = All-replies crc ht args results p b.keys numbers in
    let same : length results ≡ length args =
      length-Perm p ∙ length-map (answer_to crc ht.table ht.len) args in
    let (t', ret', ran, all) =
      settle_all-SettlesAll crc valid backends entries ht.table args queues results ht.table ret
        b.store.table (λ q _. inl refl) room replies in
    let slot : id < length ht.queues = get_elem?_in_range ht.queues id b.own in
    (
      record ht { table = t'; queues = queues },
      ret',
      rw (found, eq→== (length results) (length args) same) ran,
      record {
        store = record { capacity = valid; table = all.table };
        same_len = refl;
        size = all.size;
        keeps = all.keeps;
        macs =
            All-macs crc ht args results p numbers t' ret'
              (All-weaken (λ r h. h.0) results all.settled);
        idle = (q', get_elem?-set_self ht.queues id q' slot, v, em);
      },
    )
