-- ===== src/Dramblast/Concurrent/Effects.antt =====
-- What a step of a core may do to the table and to its call.
use native.Mathlib.Nat.{mod-lt}
use native.Mathlib.Decide.{ℕ_discrete}
use net_blast.Base.{
  ℕ, ◌+◌, ◌-◌, ◌*◌, ◌≤◌, ◌<◌, ◌≡◌, ◌≢◌, ◌⊎◌, inl, inr, refl, ap, ◌∙◌, sym, arith, List, get_elem?,
  get_elem?-eq-get_or, some, if◌then◌else◌, ◌==◌, pos, nat_eq, first-eq-some,
}
use net_blast.Probe.{spot, stops, locate}
use net_blast.Probe.Search.{stops_at, passes_at}
use net_blast.WordTable.{Pair, zero_pair, slots, IsTable, contents, write_at}
use net_blast.WordTable.Order.{spot-lt, write_at-IsWritten, write_at-IsTable, contents-write_at}
use net_blast.Capacity.{IsCapacity}
use net_blast.Capacity.Mask.{capacity_bounds}
use net_blast.Dramblast.{dramblast_hash}
use net_blast.Dramblast.Concurrent.{Call, Core}
use net_blast.Dramblast.Concurrent.Calls.{Extends, L, AtProbe, IsCore}

-- 1 for a call that returned 0, and else 0
abbrev pub stored : Core → ℕ
stored (Core.returned c (pos n)) = 1
stored core = 0

abbrev pub call_of : Core → Call
call_of (Core.loading c) = c
call_of (Core.claiming c) = c
call_of (Core.checking c) = c
call_of (Core.storing c) = c
call_of (Core.returned c code) = c

-- How many steps a call may still take.
abbrev pub steps_left : ℕ → Core → ℕ
steps_left len (Core.loading c) = 4 * (len - c.count)
steps_left len (Core.claiming c) = 4 * (len - c.count) + 3
steps_left len (Core.checking c) = 4 * (len - c.count) + 2
steps_left len (Core.storing c) = 4 * (len - c.count) + 1
steps_left len (Core.returned c code) = 0

module _ (crc : ℕ → ℕ) {len : ℕ} (valid : IsCapacity len) where
  abbrev home : ℕ → ℕ
  home = dramblast_hash crc len

  -- What a step leaves: nothing new in the map, or the binding of the call.
  abbrev pub Effect : Core → Core → List Pair → List Pair → Type 0
  Effect core core' table table' =
      ((table' ≡ table) × (stored core' ≡ stored core))
      ⊎ ((stored core ≡ 0)
          × (core' ≡ Core.returned (call_of core) (pos 0))
          × ((q : ℕ)
              → q ≢ 0
              → contents len home table' q ≡ (
                  if q == (call_of core).k
                  then some (call_of core).v
                  else contents len home table q)))

  pub record Steps (core core' : Core) (table table' : List Pair) : Type 0 where
    pub in_order : IsTable len home table'
    pub extends : Extends table table'
    pub call : IsCore crc len table' core'
    pub effect : Effect core core' table table'
    pub same_key : (call_of core').k ≡ (call_of core).k
    pub same_value : (call_of core').v ≡ (call_of core).v
    pub closer : steps_left len core' ≤ steps_left len core - 1

  module _ (table : List Pair) (ok : IsTable len home table) (c : Call) (d : ℕ)
      (at : AtProbe crc len table c d) where
    pub read : get_elem? table c.idx ≡ some (slots table c.idx)
    read =
        let b = capacity_bounds valid in
        rw at.idx (
          get_elem?-eq-get_or table (spot (L crc len) c.k d) zero_pair
            (rw ok.sized (mod-lt (home c.k + d) (omega arith))))

    -- The search for the key ends here, if the pair is empty or holds the key.
    found :
        ((slots table c.idx).key ≡ 0) ⊎ ((slots table c.idx).key ≡ c.k)
        → locate (L crc len) (slots table) c.k ≡ some d
    unfolding locate
    found ends =
        first-eq-some (stops (L crc len) (slots table) c.k) len 0 d (omega arith)
          (let b = at.bound in omega arith)
          (stops_at (L crc len) (slots table) c.k d (rw at.idx at ends))
          (λ j _ h. passes_at (L crc len) (slots table) c.k j (at.passed j h))

    -- The write that ends the call.
    pub write-Steps :
        (core : Core)
        → ((slots table c.idx).key ≡ 0) ⊎ ((slots table c.idx).key ≡ c.k)
        → stored core ≡ 0
        → call_of core ≡ c
        → Steps core (Core.returned c (pos 0)) table (write_at len home table c.k c.v d)
    write-Steps core ends fresh is_c =
        let f = found ends in
        let w = write_at-IsWritten len home table ok c.k c.v d at.proper f in
        let inside = spot-lt len home table ok c.k c.v d at.proper f in
        let there = ap (λ x. x.key) w.there in
        record {
          in_order = write_at-IsTable len home table ok c.k c.v d at.proper f;
          extends = λ s used. elim (ℕ_discrete s (spot (L crc len) c.k d)) [
            | yes p ↦ elim ends [
              | inl e ↦ absurd (used (ap (λ x. (slots table x).key) (p ∙ sym at.idx) ∙ e))
              | inr e ↦ rw p (there ∙ sym (rw at.idx at e))
            ]
            | no p ↦ ap (λ x. x.key) (w.elsewhere s p)
          ];
          call = (refl, at.proper, (spot (L crc len) c.k d, rw ok.sized at inside, there));
          effect = inr (
            fresh,
            ap (λ x. Core.returned x (pos 0)) (sym is_c),
            rw is_c (contents-write_at len home table ok c.k c.v d at.proper f),
          );
          same_key = ap (λ x. x.k) (sym is_c);
          same_value = ap (λ x. x.v) (sym is_c);
          closer = omega arith;
        }

    -- A step that leaves the table as it is.
    pub look-Steps :
        (core core' : Core)
        → IsCore crc len table core'
        → stored core' ≡ stored core
        → call_of core ≡ c
        → (call_of core').k ≡ c.k
        → (call_of core').v ≡ c.v
        → steps_left len core' < steps_left len core
        → Steps core core' table table
    look-Steps core core' call fresh is_c same_k same_v less = record {
      in_order = ok;
      extends = λ s used. refl;
      call = call;
      effect = inl (refl, fresh);
      same_key = rw is_c same_k;
      same_value = rw is_c same_v;
      closer = omega (arith, less);
    }
