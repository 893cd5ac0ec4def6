-- ===== src/Probe/View.antt =====
-- A table in order, slot by slot and as a map.
use net_blast.Base.{
  ℕ, ◌≡◌, ◌≢◌, some, inl, inr, refl, ◌∙◌, sym, ap, subst, arith, Eq, some_inj, Bool-cases,
  Option-cases, same_refl,
}
use net_blast.Probe.{Slot, Layout, spot, locate, value_at, view, IsReached, IsPlaced}
use net_blast.Probe.Search.{IsReached-locate}

module _ {K V : Type 0} ⦃e : Eq K⦄ (L : Layout K) (t : ℕ → Slot K V) where
  -- A binding of the map stands in a slot.
  pub slot_of_view :
      (k : K) {v : V} → view L t k ≡ some v → (s : ℕ) × ((t s).key ≡ k) × ((t s).value ≡ v)
  unfolding view value_at
  slot_of_view k {v} h = elim (Option-cases (locate L t k)) [
    | inl n ↦ ground (arith, n)
    | inr (d, f) ↦
        let s = t (spot L k d) in
        elim (Bool-cases (e.same s.key k)) [
          | inl y ↦ (spot L k d, (e.same_iff _ _).0 y, ground arith)
          | inr n ↦ ground arith
        ]
  ]

  module _ (placed : IsPlaced L t) where
    pub reached : (s : ℕ) (k : K) → (t s).key ≡ k → k ≢ L.vacant → (d : ℕ) × IsReached L t k d s
    reached s k h ne = let (d, r) = placed s (rw h ne) in (d, subst (λ q. IsReached L t q d s) h r)

    -- In a table in order the map has what the slots hold.
    pub view_of_slot :
        (s : ℕ) (k : K) → (t s).key ≡ k → k ≢ L.vacant → view L t k ≡ some (t s).value
    unfolding view value_at
    view_of_slot s k h ne =
        let (d, r) = reached s k h ne in
        rw (IsReached-locate L t k r h, value_at, r.here, h, same_refl k)

    -- A key stands in one slot only.
    pub slot_unique : (s s' : ℕ) → (t s).key ≡ (t s').key → (t s).key ≢ L.vacant → s ≡ s'
    slot_unique s s' h ne =
        let (d, r) = placed s ne in
        let (d', r') = reached s' (t s).key (sym h) ne in
        let same =
          some_inj (sym (IsReached-locate L t _ r refl) ∙ IsReached-locate L t _ r' (sym h)) in
        sym r.here ∙ ap (spot L (t s).key) same ∙ r'.here
