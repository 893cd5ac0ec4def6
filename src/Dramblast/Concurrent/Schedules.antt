-- ===== src/Dramblast/Concurrent/Schedules.antt =====
-- Calls of `dramblast_insert_one` by any number of cores, in any interleaving of their steps.
use net_blast.Base.{
  ℕ, ◌+◌, ◌-◌, ◌≤◌, ◌≡◌, ◌≢◌, inl, inr, refl, ap, ◌∙◌, arith, Bool-cases, List, [], ◌∷◌, Option,
  some, if◌then◌else◌, ◌==◌, ==→eq, nat_eq,
}
use net_blast.WordTable.{Pair, IsTable, contents}
use net_blast.Capacity.{IsCapacity}
use net_blast.Dramblast.{dramblast_hash}
use net_blast.Dramblast.Concurrent.{Core, System, interleave}
use net_blast.Dramblast.Concurrent.Calls.{IsCore, IsCore-Extends}
use net_blast.Dramblast.Concurrent.Effects.{stored, call_of, steps_left, Steps}
use net_blast.Dramblast.Concurrent.Steps.{core_step-Steps}

-- how often a core is in a list
unfoldable pub times : ℕ → List ℕ → ℕ
times i [] = 0
times i (j ∷ rest) = let n = times i rest in if i == j then n + 1 else n

module _ (crc : ℕ → ℕ) {len : ℕ} (valid : IsCapacity len) (keys values : ℕ → ℕ) where
  abbrev home : ℕ → ℕ
  home = dramblast_hash crc len

  -- The map after the cores of the list, one after the other, bound their keys to their values.
  unfoldable pub bind_each : List ℕ → (ℕ → Option ℕ) → ℕ → Option ℕ
  bind_each [] f q = f q
  bind_each (i ∷ rest) f q = bind_each rest (λ p. if p == keys i then some (values i) else f p) q

  bind_each-same :
      (writes : List ℕ) (f g : ℕ → Option ℕ)
      → ((q : ℕ) → q ≢ 0 → f q ≡ g q)
      → (q : ℕ) → q ≢ 0
      → bind_each writes f q ≡ bind_each writes g q
  unfolding bind_each
  bind_each-same [] f g h q ne = h q ne
  bind_each-same (i ∷ rest) f g h q ne =
      bind_each-same rest _ _
        (λ p p_ne. ap (λ x. if p == keys i then some (values i) else x) (h p p_ne)) q ne

  -- The table is in order, and each core is in the call that `keys` and `values` give it.
  pub record IsSystem (s : System) : Type 0 where
    pub in_order : IsTable len home s.table
    pub call : (i : ℕ) → IsCore crc len s.table (s.cores i)
    pub key : (i : ℕ) → (call_of (s.cores i)).k ≡ keys i
    pub value : (i : ℕ) → (call_of (s.cores i)).v ≡ values i

  -- What a schedule makes of a system: the cores of `writes` have bound their keys, in this order.
  pub record IsRun (s : System) (schedule : List ℕ) (s' : System) (writes : List ℕ) : Type 0 where
    pub system : IsSystem s'
    pub binds :
        (q : ℕ)
        → q ≢ 0
        → contents len home s'.table q ≡ bind_each writes (contents len home s.table) q
    pub once : (i : ℕ) → times i writes + stored (s.cores i) ≡ stored (s'.cores i)
    pub closer :
        (i : ℕ) → steps_left len (s'.cores i) ≤ steps_left len (s.cores i) - times i schedule

  -- the system after a step of the core `i`
  abbrev pub moved : System → ℕ → Core → List Pair → System
  moved s i core table = record { table = table; cores = λ j. if j == i then core else s.cores j }

  module _ (s : System) (ok : IsSystem s) (i : ℕ) (core : Core) (table : List Pair)
      (step : Steps crc valid (s.cores i) core s.table table) where
    moved-IsSystem : IsSystem (moved s i core table)
    moved-IsSystem = record {
      in_order = step.in_order;
      call = λ j. elim (Bool-cases (j == i)) [
        | inl p ↦ rw p step.call
        | inr p ↦ rw p (IsCore-Extends crc len s.table table step.extends (s.cores j) (ok.call j))
      ];
      key = λ j. elim (Bool-cases (j == i)) [
        | inl p ↦ rw (p, ==→eq _ _ p) (step.same_key ∙ ok.key i)
        | inr p ↦ rw p (ok.key j)
      ];
      value = λ j. elim (Bool-cases (j == i)) [
        | inl p ↦ rw (p, ==→eq _ _ p) (step.same_value ∙ ok.value i)
        | inr p ↦ rw p (ok.value j)
      ];
    }

    module _ {schedule : List ℕ} {s' : System} {writes : List ℕ}
        (rest : IsRun (moved s i core table) schedule s' writes) where
      closer_with :
          (j : ℕ)
          → steps_left len (s'.cores j) ≤ steps_left len (s.cores j) - times j (i ∷ schedule)
      unfolding times
      closer_with j = elim (Bool-cases (j == i)) [
        | inl p ↦
            let l : steps_left len (s'.cores j) ≤ steps_left len core - times j schedule =
              rw p at (rest.closer j) in
            let here = ap (λ x. steps_left len (s.cores x)) (==→eq _ _ p) in
            rw (p, here) (omega (arith, l, step.closer))
        | inr p ↦ rw p (rw p at (rest.closer j))
      ]

      -- The step bound nothing.
      quiet : table ≡ s.table → stored core ≡ stored (s.cores i) → IsRun s (i ∷ schedule) s' writes
      quiet same fresh = record {
        system = rest.system;
        binds = λ q ne. rw same at (rest.binds q ne);
        once = λ j. elim (Bool-cases (j == i)) [
          | inl p ↦
              let l : times j writes + stored core ≡ stored (s'.cores j) = rw p at (rest.once j) in
              let here = ap (λ x. stored (s.cores x)) (==→eq _ _ p) in rw here (rw fresh at l)
          | inr p ↦ rw p at (rest.once j)
        ];
        closer = closer_with;
      }

      -- The step bound the key of its core.
      wrote :
          stored (s.cores i) ≡ 0
          → stored core ≡ 1
          → ((q : ℕ)
              → q ≢ 0
              → contents len home table q
                ≡ (if q == keys i then some (values i) else contents len home s.table q))
          → IsRun s (i ∷ schedule) s' (i ∷ writes)
      unfolding bind_each times
      wrote fresh now binds = record {
        system = rest.system;
        binds = λ q ne. rest.binds q ne ∙ bind_each-same writes _ _ binds q ne;
        once = λ j. elim (Bool-cases (j == i)) [
          | inl p ↦
              let l : times j writes + stored core ≡ stored (s'.cores j) = rw p at (rest.once j) in
              let here = ap (λ x. stored (s.cores x)) (==→eq _ _ p) in
              rw (p, here) (omega (arith, l, fresh, now))
          | inr p ↦ rw p (rw p at (rest.once j))
        ];
        closer = closer_with;
      }

      step-IsRun : (writes' : List ℕ) × IsRun s (i ∷ schedule) s' writes'
      step-IsRun = elim step.effect [
        | inl (same, fresh) ↦ (writes, quiet same fresh)
        | inr (fresh, now, binds) ↦
            (i ∷ writes, wrote fresh (ap stored now) (rw (ok.key i, ok.value i) at binds))
      ]

  pub interleave-IsRun :
      (schedule : List ℕ) (s : System)
      → IsSystem s
      → (s' : System) × (writes : List ℕ) × (interleave len schedule s ≡ some s')
        × IsRun s schedule s' writes
  unfolding interleave times bind_each
  interleave-IsRun [] s ok = (
    s,
    [],
    refl,
    record {
      system = ok;
      binds = λ q ne. refl;
      once = λ i. omega arith;
      closer = λ i. omega arith;
    },
  )
  interleave-IsRun (i ∷ schedule) s ok =
      let (core, table, e, step) =
        core_step-Steps crc valid s.table ok.in_order (s.cores i) (ok.call i) in
      let (s', writes, run, rest) =
        interleave-IsRun schedule (moved s i core table) (moved-IsSystem s ok i core table step) in
      let (writes', all) = step-IsRun s ok i core table step rest in (s', writes', rw e run, all)
