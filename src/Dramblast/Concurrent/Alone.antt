-- ===== src/Dramblast/Concurrent/Alone.antt =====
-- A call of `dramblast_insert_one` between whose steps no other core makes one.
use net_blast.Base.{
  ℕ, zero, suc, ◌+◌, ◌≡◌, inl, inr, refl, ap, ◌∙◌, arith, Bool-cases, leb, List, get_elem?, set,
  Option, none, some, some_inj, Option-cases, if◌then◌else◌, ◌==◌, ==→ne, bit_and, u64, sub64, ℤ,
  pos, minus_one, nat_eq, replicate,
}
use net_blast.WordTable.{Pair, is_zero_pair, try_pair, inserted_or}
use net_blast.Dramblast.{Ht, dramblast_hash}
use net_blast.Dramblast.Insert.{insert_from, dramblast_insert_one}
use net_blast.Dramblast.Insert.Laws.{IsStore, insert_one-Inserts}
use net_blast.Dramblast.Concurrent.{Call, Core, begin, advance, core_step, System, interleave}

abbrev answered : ℤ → List Pair → Option (ℤ × List Pair)
answered r table = some (r, table)

module _ (len i : ℕ) (code : ℤ) (table' : List Pair) where
  -- Some steps of the core `i` alone end its call with `code` and leave `table'`.
  abbrev pub Ends : System → Type 0
  Ends s =
      (n : ℕ) × (s' : System) × (c : Call) × (interleave len (replicate n i) s ≡ some s')
      × (s'.table ≡ table')
      × (s'.cores i ≡ Core.returned c code)

  abbrev From : Core → List Pair → Type 0
  From core table = (s : System) → s.table ≡ table → s.cores i ≡ core → Ends s

  done :
      (c : Call) (r : ℤ) (table : List Pair)
      → answered r table ≡ answered code table'
      → From (Core.returned c r) table
  unfolding interleave replicate
  done c r table e s same at =
      let both = some_inj e in
      (0, s, c, refl, same ∙ ap (λ x. x.1) both, at ∙ ap (λ x. Core.returned c x.0) both)

  step :
      (core core1 : Core) (table table1 : List Pair)
      → core_step len table core ≡ some (core1, table1)
      → From core1 table1
      → From core table
  unfolding interleave replicate
  step core core1 table table1 e rest s same at =
      let s1 : System = record {
        table = table1;
        cores = λ j. if j == i then core1 else s.cores j;
      } in
      let (n, s', c, run, t, r) = rest s1 refl (ground arith) in
      (suc n, s', c, rw (same, at, e) run, t, r)

  -- The rest of a round behind the compare-and-swap.
  check :
      (c : Call) (table : List Pair) (kv : Pair) (again : Option (ℤ × List Pair))
      → get_elem? table c.idx ≡ some kv
      → (again ≡ answered code table'
          → From (Core.loading (record c { idx = bit_and (u64 (c.idx + 1)) (sub64 len 1) })) table)
      → inserted_or
          (if kv.key == c.k then some (set table c.idx (record kv { value = c.v })) else none)
          (if leb len c.count then some (minus_one, table) else again)
        ≡ answered code table'
      → From (Core.checking c) table
  unfolding core_step advance
  check c table kv again read rest e =
      let next = record c { idx = bit_and (u64 (c.idx + 1)) (sub64 len 1) } in
      elim (Bool-cases (kv.key == c.k)) [
        | inl p ↦ step (Core.checking c) (Core.storing c) table table (rw (read, p) refl) (
            step (Core.storing c) (Core.returned c (pos 0)) table
              (set table c.idx (record kv { value = c.v })) (rw read refl)
              (done c (pos 0) (set table c.idx (record kv { value = c.v })) (rw p at e)))
        | inr p ↦ elim (Bool-cases (leb len c.count)) [
          | inl q ↦
              step (Core.checking c) (Core.returned next minus_one) table table
                (rw (read, p, q) refl) (done next minus_one table (rw (p, q) at e))
          | inr q ↦
              step (Core.checking c) (Core.loading next) table table (rw (read, p, q) refl)
                (rest (rw (p, q) at e))
        ]
      ]

  loop :
      (fuel : ℕ) (table : List Pair) (c : Call)
      → insert_from fuel table len c.k c.v c.idx c.count ≡ answered code table'
      → From (Core.loading c) table
  unfolding insert_from try_pair core_step
  loop zero table c e = absurd (cc)
  loop (suc fuel) table c e = elim (Option-cases (get_elem? table c.idx)) [
    | inl none_there ↦ absurd (let bad : none ≡ answered code table' = rw none_there at e in cc)
    | inr (kv, read) ↦
        let visited = record c { count = u64 (c.count + 1) } in
        let next = record visited { idx = bit_and (u64 (c.idx + 1)) (sub64 len 1) } in
        let again = insert_from fuel table len c.k c.v next.idx visited.count in
        let rest = check visited table kv again read (loop fuel table next) in
        elim (Bool-cases (kv.key == 0)) [
          | inl p ↦ elim (Bool-cases (is_zero_pair kv)) [
            | inl q ↦
                let new = set table c.idx (record { key = c.k; value = c.v }) in
                step (Core.loading c) (Core.claiming visited) table table (rw (read, p) refl) (
                  step (Core.claiming visited) (Core.returned visited (pos 0)) table new
                    (rw (read, q) refl) (done visited (pos 0) new (rw (read, q, p) at e)))
            | inr q ↦
                step (Core.loading c) (Core.claiming visited) table table (rw (read, p) refl) (
                  step (Core.claiming visited) (Core.checking visited) table table
                    (rw (read, q) refl) (rest (rw (read, q, p) at e)))
          ]
          | inr p ↦
              step (Core.loading c) (Core.checking visited) table table (rw (read, p) refl)
                (rest (rw (read, p) at e))
        ]
  ]

module _ (crc : ℕ → ℕ) (ht : Ht) (k v i : ℕ) where
  -- The outcome of the call that runs by itself, and of the steps of the core `i` from `s` on.
  abbrev pub Agrees : System → Type 0
  Agrees s =
      (code : ℤ) × (ht' : Ht) × (dramblast_insert_one crc ht k v ≡ some (code, ht'))
      × Ends ht.len i code ht'.table s

  -- A core that starts `dramblast_insert_one` on a table in order, of a length that -c accepts, and
  -- is not interrupted, ends after some number of steps with the code and the table of the function
  -- run as a whole.
  pub alone-insert_one :
      IsStore crc ht
      → (s : System) → s.table ≡ ht.table
      → s.cores i ≡ begin crc ht.len k v
      → Agrees s
  unfolding dramblast_insert_one begin
  alone-insert_one store s same at = elim (Bool-cases (k == 0)) [
    | inl p ↦
        let call : Call = record { k = k; v = v; idx = dramblast_hash crc ht.len k; count = 0 } in
        (
          minus_one,
          ht,
          rw p refl,
          done ht.len i minus_one ht.table call minus_one ht.table refl s same (rw p at at),
        )
    | inr p ↦
        let call : Call = record { k = k; v = v; idx = dramblast_hash crc ht.len k; count = 0 } in
        let (code, table', e, r) = insert_one-Inserts crc ht store k (==→ne _ _ p) v in
        elim (Option-cases
          (insert_from ht.len ht.table ht.len k v (dramblast_hash crc ht.len k) 0)) [
            | inl q ↦
                absurd (
                  let bad : none ≡ some (code, record ht { table = table' }) = rw (p, q) at e in cc)
            | inr (x, q) ↦ (
              x.0,
              record ht { table = x.1 },
              rw (p, q) refl,
              loop ht.len i x.0 x.1 ht.len ht.table call q s same (rw p at at),
            )
          ]
  ]
