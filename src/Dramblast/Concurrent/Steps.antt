-- ===== src/Dramblast/Concurrent/Steps.antt =====
-- What one step of a core does, whatever the others have done before.
use native.Mathlib.Decide.{ℕ_discrete}
use net_blast.Base.{
  ℕ, ◌+◌, ◌<◌, ◌≡◌, ◌≢◌, inl, inr, refl, sym, subst, arith, Bool-cases, leb, List, some, ◌==◌,
  ==→eq, ==→ne, u64, sub64, bit_and, pos, minus_one, nat_eq,
}
use net_blast.Probe.{spot}
use net_blast.Probe.Search.{round_reaches}
use net_blast.WordTable.{Pair, slots, is_zero_pair, IsTable, write_at}
use net_blast.WordTable.Insertion.{IsFull}
use net_blast.Capacity.{IsCapacity}
use net_blast.Capacity.Mask.{capacity_bounds}
use net_blast.Dramblast.{dramblast_hash}
use net_blast.Dramblast.Insert.Laws.{next-spot}
use net_blast.Dramblast.Concurrent.{Call, Core, advance, core_step}
use net_blast.Dramblast.Concurrent.Effects.{Steps, read, write-Steps, look-Steps}
use net_blast.Dramblast.Concurrent.Calls.{L, AtProbe, IsCore}

module _ (crc : ℕ → ℕ) {len : ℕ} (valid : IsCapacity len) where
  abbrev home : ℕ → ℕ
  home = dramblast_hash crc len

  module _ (table : List Pair) (ok : IsTable len home table) (c : Call) (d : ℕ)
      (at : AtProbe crc len table c d) where
    -- What `core_step` makes of a core at this probe.
    abbrev pub Result : Core → Type 0
    Result core =
        (core' : Core) × (table' : List Pair) × (core_step len table core ≡ some (core', table'))
        × Steps crc valid core core' table table'

    load-Steps : c.count ≡ d → Result (Core.loading c)
    unfolding core_step
    load-Steps count =
        let visited = record c { count = u64 (c.count + 1) } in
        let b = capacity_bounds valid in
        let bound = at.bound in
        let counted : u64 (c.count + 1) ≡ d + 1 = omega arith in
        let call : AtProbe crc len table visited d = record {
          proper = at.proper;
          bound = at.bound;
          idx = at.idx;
          passed = at.passed;
        } in
        rw (read crc valid table ok c d at) (elim (Bool-cases ((slots table c.idx).key == 0)) [
          | inl p ↦ (
            Core.claiming visited,
            table,
            rw p refl,
            look-Steps crc valid table ok c d at (Core.loading c) (Core.claiming visited)
                (d, counted, call) refl refl refl refl (omega arith),
          )
          | inr p ↦ (
            Core.checking visited,
            table,
            rw p refl,
            look-Steps crc valid table ok c d at (Core.loading c) (Core.checking visited)
                ((d, counted, call), ==→ne _ _ p) refl refl refl refl (omega arith),
          )
        ])

    claim-Steps : c.count ≡ d + 1 → Result (Core.claiming c)
    unfolding core_step
    claim-Steps count =
        rw (read crc valid table ok c d at) (elim (Bool-cases (is_zero_pair (slots table c.idx))) [
          | inl p ↦
              let empty : (slots table c.idx).key ≡ 0 = ground (arith, p) in
              (
                Core.returned c (pos 0),
                write_at len home table c.k c.v d,
                rw (p, at.idx) refl,
                write-Steps crc valid table ok c d at (Core.claiming c) (inl empty) refl refl,
              )
          | inr p ↦ (
            Core.checking c,
            table,
            rw p refl,
            look-Steps crc valid table ok c d at (Core.claiming c) (Core.checking c)
                ((d, count, at), λ e. ground (arith, p, ok.clean c.idx e)) refl refl refl refl
                (omega arith),
          )
        ])

    -- The pair at this probe holds another key.
    module _ (count : c.count ≡ d + 1) (used : (slots table c.idx).key ≢ 0)
        (other : (slots table c.idx).key ≢ c.k) where
      passed_too :
          (j : ℕ)
          → j < d + 1
          → ((slots table (spot (L crc len) c.k j)).key ≢ 0)
            × ((slots table (spot (L crc len) c.k j)).key ≢ c.k)
      passed_too j h = elim (ℕ_discrete j d) [
        | yes p ↦ rw (p, sym at.idx) (used, other)
        | no p ↦ at.passed j (omega (arith, p))
      ]

      full : d + 1 ≡ len → IsFull len home table c.k
      full last s h =
          let (j, inside, here) = round_reaches len (home c.k) s h in
          rw here at (passed_too j (omega arith))

      advance-Steps : Steps crc valid (Core.checking c) (advance len c) table table
      unfolding advance
      advance-Steps =
          let next = record c { idx = bit_and (u64 (c.idx + 1)) (sub64 len 1) } in
          let bound = at.bound in
          elim (Bool-cases (leb len c.count)) [
            | inl p ↦ rw p (
                look-Steps crc valid table ok c d at (Core.checking c)
                  (Core.returned next minus_one) (refl, inr (full (ground (arith, p)))) refl refl
                  refl refl (omega arith))
            | inr p ↦
                let call : AtProbe crc len table next (d + 1) = record {
                  proper = at.proper;
                  bound = ground (arith, p);
                  idx = rw at.idx (next-spot crc valid table ok c.k at.proper d at.bound);
                  passed = passed_too;
                } in
                rw p (
                  look-Steps crc valid table ok c d at (Core.checking c) (Core.loading next)
                    (subst (λ n. AtProbe crc len table next n) (sym count) call) refl refl refl refl
                    (ground (arith, p)))
          ]

    check-Steps : c.count ≡ d + 1 → (slots table c.idx).key ≢ 0 → Result (Core.checking c)
    unfolding core_step
    check-Steps count used =
        rw (read crc valid table ok c d at) (elim (Bool-cases ((slots table c.idx).key == c.k)) [
          | inl p ↦ (
            Core.storing c,
            table,
            rw p refl,
            look-Steps crc valid table ok c d at (Core.checking c) (Core.storing c)
                ((d, count, at), ==→eq _ _ p) refl refl refl refl (omega arith),
          )
          | inr p ↦ (advance len c, table, rw p refl, advance-Steps count used (==→ne _ _ p))
        ])

    store-Steps : c.count ≡ d + 1 → (slots table c.idx).key ≡ c.k → Result (Core.storing c)
    unfolding core_step
    store-Steps count same = rw (read crc valid table ok c d at) (
      Core.returned c (pos 0),
      write_at len home table c.k c.v d,
      rw (same, at.idx) refl,
      write-Steps crc valid table ok c d at (Core.storing c) (inr same) refl refl,
    )

  -- Any core makes a step, whatever state the others have left.
  pub core_step-Steps :
      (table : List Pair)
      → IsTable len home table
      → (core : Core) → IsCore crc len table core
      → (core' : Core) × (table' : List Pair) × (core_step len table core ≡ some (core', table'))
        × Steps crc valid core core' table table'
  unfolding core_step
  core_step-Steps table ok (Core.loading c) at = load-Steps table ok c c.count at refl
  core_step-Steps table ok (Core.claiming c) (d, e, at) = claim-Steps table ok c d at e
  core_step-Steps table ok (Core.checking c) ((d, e, at), used) = check-Steps table ok c d at e used
  core_step-Steps table ok (Core.storing c) ((d, e, at), same) = store-Steps table ok c d at e same
  core_step-Steps table ok (Core.returned c code) h = (
    Core.returned c code,
    table,
    refl,
    record {
      in_order = ok;
      extends = λ s used. refl;
      call = h;
      effect = inl (refl, refl);
      same_key = refl;
      same_value = refl;
      closer = omega arith;
    },
  )
