-- ===== src/Dramblast/Concurrent/Serial.antt =====
-- What several cores that call `dramblast_insert_one` at once leave behind, and that all of them return.
use net_blast.Base.{
  ◌∙◌, ℕ, ◌*◌, ◌≤◌, ◌<◌, ◌≡◌, ◌≢◌, ◌⊎◌, inl, inr, refl, ap, sym, arith, Bool-cases, List, some,
  ◌==◌, ==→eq, ==→ne, ℤ, pos, negsuc, minus_one, nat_eq,
}
use net_blast.WordTable.{Pair, slots, IsTable, contents}
use net_blast.WordTable.Insertion.{IsFull}
use net_blast.Capacity.{IsCapacity}
use net_blast.Capacity.Mask.{capacity_bounds}
use net_blast.Dramblast.{dramblast_hash}
use net_blast.Dramblast.Insert.Laws.{at_home}
use net_blast.Dramblast.Concurrent.{Call, Core, begin, System, interleave}
use net_blast.Dramblast.Concurrent.Calls.{IsCore}
use net_blast.Dramblast.Concurrent.Effects.{stored, call_of, steps_left}
use net_blast.Dramblast.Concurrent.Schedules.{times, bind_each, IsSystem, interleave-IsRun}

module _ (crc : ℕ → ℕ) {len : ℕ} (valid : IsCapacity len) (keys values : ℕ → ℕ) (table : List Pair)
    (ok : IsTable len (dramblast_hash crc len) table) where
  abbrev home : ℕ → ℕ
  home = dramblast_hash crc len

  -- each core `i` about to call `dramblast_insert_one(ht, keys[i], values[i])`
  abbrev pub start : System
  start = record { table = table; cores = λ i. begin crc len (keys i) (values i) }

  begin-IsCore : (k v : ℕ) → IsCore crc len table (begin crc len k v)
  unfolding begin
  begin-IsCore k v = elim (Bool-cases (k == 0)) [
    | inl p ↦ rw p (refl, inl (==→eq _ _ p))
    | inr p ↦ rw p (record {
      proper = ==→ne _ _ p;
      bound = let b = capacity_bounds valid in omega arith;
      idx = sym (at_home crc valid table ok k (==→ne _ _ p));
      passed = λ j h. absurd (omega arith);
    })
  ]

  begin-call : (k v : ℕ) → (call_of (begin crc len k v)).k ≡ k
  unfolding begin
  begin-call k v = elim (Bool-cases (k == 0)) [ inl p ↦ rw p refl | inr p ↦ rw p refl ]

  begin-value : (k v : ℕ) → (call_of (begin crc len k v)).v ≡ v
  unfolding begin
  begin-value k v = elim (Bool-cases (k == 0)) [ inl p ↦ rw p refl | inr p ↦ rw p refl ]

  begin-stored : (k v : ℕ) → stored (begin crc len k v) ≡ 0
  unfolding begin
  begin-stored k v = elim (Bool-cases (k == 0)) [ inl p ↦ rw p refl | inr p ↦ rw p refl ]

  begin-steps_left : (k v : ℕ) → steps_left len (begin crc len k v) ≤ 4 * len
  unfolding begin
  begin-steps_left k v = elim (Bool-cases (k == 0)) [
    | inl p ↦ rw p (omega arith)
    | inr p ↦ rw p (omega arith)
  ]

  start-IsSystem : IsSystem crc valid keys values start
  start-IsSystem = record {
    in_order = ok;
    call = λ i. begin-IsCore (keys i) (values i);
    key = λ i. begin-call (keys i) (values i);
    value = λ i. begin-value (keys i) (values i);
  }

  -- What the cores have done after a schedule, seen as calls that follow each other in the order of
  -- `writes`.
  pub record IsSerial (s : System) (writes : List ℕ) : Type 0 where
    pub in_order : IsTable len home s.table
    pub binds :
        (q : ℕ)
        → q ≢ 0
        → contents len home s.table q
          ≡ bind_each crc valid keys values writes (contents len home table) q
    pub once : (i : ℕ) → times i writes ≡ stored (s.cores i)
    pub proper : (i : ℕ) (c : Call) → s.cores i ≡ Core.returned c (pos 0) → keys i ≢ 0

  -- On a table in order, of a length that -c accepts, any number of cores call
  -- `dramblast_insert_one` and take their steps in any order: no access is out of range, the table
  -- stays in order, and its bindings are those of the calls that have returned 0, made one after the
  -- other in some order, each once. None of those has the key 0.
  pub interleave-IsSerial :
      (schedule : List ℕ)
      → (s : System) × (writes : List ℕ) × (interleave len schedule start ≡ some s)
        × IsSerial s writes
  interleave-IsSerial schedule =
      let (s, writes, run, r) =
        interleave-IsRun crc valid keys values schedule start start-IsSystem in
      (
        s,
        writes,
        run,
        record {
          in_order = r.system.in_order;
          binds = r.binds;
          once = λ i. omega (arith, r.once i, begin-stored (keys i) (values i));
          proper = λ i c e zero_key.
              (rw e at (r.system.call i)).1
                (ap (λ x. (call_of x).k) (sym e) ∙ r.system.key i ∙ zero_key);
        },
      )

  -- How a call of the core `i` ended.
  abbrev pub IsAnswer : List Pair → ℕ → ℤ → Type 0
  IsAnswer table' i code =
      ((code ≡ pos 0) × (keys i ≢ 0) × ((j : ℕ) × (j < len) × ((slots table' j).key ≡ keys i)))
      ⊎ ((code ≡ minus_one) × ((keys i ≡ 0) ⊎ IsFull len home table' (keys i)))

  finished :
      (table' : List Pair) (i : ℕ) (core : Core)
      → IsCore crc len table' core
      → (call_of core).k ≡ keys i
      → steps_left len core ≡ 0
      → (c : Call) × (code : ℤ) × (core ≡ Core.returned c code) × IsAnswer table' i code
  finished table' i (Core.loading c) at same none_left = absurd (let b = at.bound in omega arith)
  finished table' i (Core.claiming c) at same none_left = absurd (omega arith)
  finished table' i (Core.checking c) at same none_left = absurd (omega arith)
  finished table' i (Core.storing c) at same none_left = absurd (omega arith)
  finished table' i (Core.returned c (pos n)) (e, ne, place) same none_left =
      (c, pos n, refl, inl (ap pos e, rw same at ne, rw same at place))
  finished table' i (Core.returned c (negsuc n)) (e, why) same none_left =
      (c, negsuc n, refl, inr (ap negsuc e, rw same at why))

  -- On a table in order, of a length that -c accepts, a core that takes `4 * len` steps in a
  -- schedule has returned at its end, however the others are scheduled, even if they have stopped inside their calls: with 0 and the key in the table, or
  -- with -1, the key being 0 or the table full of other keys.
  pub interleave-Returns :
      (schedule : List ℕ) (i : ℕ)
      → 4 * len ≤ times i schedule
      → (s : System) × (c : Call) × (code : ℤ) × (interleave len schedule start ≡ some s)
        × (s.cores i ≡ Core.returned c code)
        × IsAnswer s.table i code
  interleave-Returns schedule i enough =
      let (s, writes, run, r) =
        interleave-IsRun crc valid keys values schedule start start-IsSystem in
      let spent = begin-steps_left (keys i) (values i) in
      let (c, code, e, a) =
        finished s.table i (s.cores i) (r.system.call i) (r.system.key i)
          (omega (arith, r.closer i, spent)) in
      (s, c, code, run, e, a)
