-- ===== src/Dramblast/Frames/Loop.antt =====
-- The loop over the results: each round, and all of them.
use net_blast.Base.{
  All, subst, ℕ, ◌%◌, ◌<◌, ◌≤◌, ◌≡◌, ◌≢◌, inl, inr, refl, ap, ◌∙◌, sym, arith, List, [], ◌∷◌,
  length, get_elem?, get_elem?-eq-get_or, none, some, Option-cases, nat_eq, set, get_or-set_self,
  get_or-set_ne, length-set, lt→ltb, get_elem?_in_range,
}
use native.Mathlib.Decide.{ℕ_discrete}
use native.Mathlib.Nat.{mod-lt}
use net_blast.Capacity.{IsCapacity}
use net_blast.WordTable.{Pair, IsTable}
use net_blast.Conshash.{LookUpTable, table_size}
use net_blast.Conshash.Fill.{backend, mac_of}
use net_blast.Dramblast.{absent, Result, Arg, Queue, Ht, dramblast_hash}
use net_blast.Dramblast.Insert.Laws.{insert_one-Inserts}
use net_blast.Dramblast.Find.Spec.{answer}
use net_blast.Dramblast.Frames.{map_flow, settle, settle_all, write_mac}
use net_blast.Dramblast.Frames.Spec.{key_at, bound, Keeps, IsReply, IsFinal, Tells}
use net_blast.Dramblast.Frames.Settle.{
  answer-cases, store, Settles, found-Settles, full-Settles, stored-Settles, refused-Settles,
}

key_at-arg :
    (args : List Arg) (i : ℕ)
    → key_at args i ≢ 0
    → (arg : Arg) × (get_elem? args i ≡ some arg) × (key_at args i ≡ arg.k)
key_at-arg args i ne = elim (Option-cases (get_elem? args i)) [
  | inl e ↦ absurd (ne (rw (key_at, e) refl))
  | inr (arg, e) ↦ (arg, e, rw (key_at, e) refl)
]

module _ (crc : ℕ → ℕ) {len : ℕ} (valid : IsCapacity len) (backends : LookUpTable)
    (entries : length backends ≡ table_size) (table0 : List Pair) (args : List Arg)
    (queues : List Queue) where
  abbrev Round : List Pair → ℕ → ℕ → List Pair → Type 0
  Round = Settles crc valid backends entries table0 args queues

  abbrev state : List Pair → Ht
  state = store crc valid backends entries table0 args queues

  module _ (t : List Pair) (ok : IsTable len (dramblast_hash crc len) t)
      (keeps : Keeps crc len backends table0 t) where
    map_flow-Settles :
        (id : ℕ)
        → key_at args id ≢ 0
        → bound crc len table0 (key_at args id) ≡ none
        → (answer crc table0 len (key_at args id) 0).status ≡ absent
        → (mac : ℕ) × (t' : List Pair) × (map_flow crc backends args (state t) id
            ≡ some (mac, state t'))
          × Round t (key_at args id) mac t'
    unfolding map_flow
    map_flow-Settles id k_ne h status =
        let k = key_at args id in
        let (arg, e, key) = key_at-arg args id k_ne in
        let entry : get_elem? backends (k % table_size) ≡ some (backend backends k) =
          get_elem?-eq-get_or backends (k % table_size) 0 (rw entries (mod-lt k (omega arith))) in
        let (code, t', ran, r) =
          insert_one-Inserts crc (state t) (record { capacity = valid; table = ok }) k k_ne
            (backend backends k) in
        elim r.effect [
          | inl (stored, update) ↦ (
            backend backends k,
            t',
            rw (e, ← key, entry, ran, stored) refl,
            stored-Settles crc valid backends entries table0 args queues t ok keeps k k_ne h status
                stored r update,
          )
          | inr (failed, same, full) ↦ (
            0,
            t,
            rw (e, ← key, entry, ran, failed, same) refl,
            refused-Settles crc valid backends entries table0 args queues t ok keeps k k_ne h status
                full,
          )
        ]

    settle-Settles :
        (r : Result)
        → IsReply crc len table0 args r
        → (mac : ℕ) × (t' : List Pair) × (settle crc backends args (state t) r
            ≡ some (mac, state t'))
          × Round t (key_at args r.id) mac t'
    unfolding settle
    settle-Settles r (k_ne, said) = elim (answer-cases crc table0 len (key_at args r.id) r.id) [
      | inl (v, h, e) ↦
          let same = said ∙ e in
          (
            v,
            t,
            rw same refl,
            found-Settles crc valid backends entries table0 args queues t ok keeps _ k_ne v h,
          )
      | inr (inl (h, e, status)) ↦
          let same = said ∙ e in
          (
            0,
            t,
            rw same refl,
            full-Settles crc valid backends entries table0 args queues t ok keeps _ k_ne h status,
          )
      | inr (inr (h, e, status)) ↦
          let (mac, t', ran, s) = map_flow-Settles r.id k_ne h status in
          (mac, t', rw (ap (λ x. x.status) (said ∙ e)) ran, s)
    ]

  -- The array has the MAC of the argument at the index, and later rounds do not change what it is.
  abbrev pub IsSettled : List Pair → List ℕ → ℕ → Type 0
  IsSettled t ret i = Tells crc len t args ret i × IsFinal crc len table0 t (key_at args i)

  -- What the loop over `results` has done to the table and the array.
  pub record SettlesAll (results : List Result) (t : List Pair) (ret : List ℕ) (t' : List Pair)
      (ret' : List ℕ) : Type 0 where
    pub table : IsTable len (dramblast_hash crc len) t'
    pub keeps : Keeps crc len backends table0 t'
    pub size : length ret' ≡ length ret
    pub stay : (i : ℕ) → key_at args i ≢ 0 → IsSettled t ret i → IsSettled t' ret' i
    pub settled : All (λ r. IsSettled t' ret' r.id) results

  module _ (t : List Pair) (ret : List ℕ) (r : Result) (mac : ℕ) (t' : List Pair)
      (s : Round t (key_at args r.id) mac t') (room : r.id < length ret) where
    written : IsSettled t' (set ret r.id mac) r.id
    written = (get_or-set_self ret r.id mac 0 room ∙ s.tells, s.final)

    write-IsSettled :
        (i : ℕ) → key_at args i ≢ 0 → IsSettled t ret i → IsSettled t' (set ret r.id mac) i
    write-IsSettled i i_ne (told, final) = elim (ℕ_discrete i r.id) [
      | yes p ↦ subst (IsSettled t' (set ret r.id mac)) (sym p) written
      | no p ↦
          let (same, final') = s.others (key_at args i) i_ne final in
          (get_or-set_ne ret r.id i mac 0 (λ e. p (sym e)) ∙ told ∙ ap mac_of (sym same), final')
    ]

  pub settle_all-SettlesAll :
      (results : List Result) (t : List Pair) (ret : List ℕ)
      → IsTable len (dramblast_hash crc len) t
      → Keeps crc len backends table0 t
      → length args ≤ length ret
      → All (IsReply crc len table0 args) results
      → (t' : List Pair) × (ret' : List ℕ) × (settle_all crc backends args results (state t) ret
          ≡ some (state t', ret'))
        × SettlesAll results t ret t' ret'
  unfolding settle_all write_mac
  settle_all-SettlesAll [] t ret ok keeps room replies = (
    t,
    ret,
    refl,
    record { table = ok; keeps = keeps; size = refl; stay = λ i _ g. g; settled = tt },
  )
  settle_all-SettlesAll (r ∷ results) t ret ok keeps room replies =
      let (mac, t1, ran, s) = settle-Settles t ok keeps r replies.0 in
      let (arg, e, _) = key_at-arg args r.id replies.0.0 in
      let in_range : r.id < length ret = let l = get_elem?_in_range args r.id e in omega arith in
      let same = length-set ret r.id mac in
      let (t2, ret2, ran2, all) =
        settle_all-SettlesAll results t1 (set ret r.id mac) s.table s.keeps (omega arith)
          replies.1 in
      (
        t2,
        ret2,
        rw (ran, lt→ltb r.id (length ret) in_range) ran2,
        record {
          table = all.table;
          keeps = all.keeps;
          size = all.size ∙ same;
          stay = λ i i_ne g. all.stay i i_ne (write-IsSettled t ret r mac t1 s in_range i i_ne g);
          settled = (all.stay r.id replies.0.0 (written t ret r mac t1 s in_range), all.settled);
        },
      )
