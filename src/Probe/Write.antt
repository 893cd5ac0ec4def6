-- ===== src/Probe/Write.antt =====
-- Writing a key and its value where the search for the key ended.
use net_blast.Base.{
  ℕ, ◌≡◌, ◌≢◌, ◌==◌, none, some, inl, inr, refl, ◌∙◌, sym, ap, subst, arith, Eq, Bool-cases,
  Option-cases, if◌then◌else◌, ==→eq, ==→ne, some_inj, ne_of_same,
}
use net_blast.Probe.{Slot, Layout, spot, locate, view, IsReached, IsPlaced}
use net_blast.Probe.Search.{IsReached-locate, locate-IsReached, round_injective}
use net_blast.Probe.View.{slot_of_view, view_of_slot}

-- `t'` is `t` with `k` and `v` written at the probe `d`, which ended the search for `k`.
pub record IsWritten {K V : Type 0} ⦃e : Eq K⦄ (L : Layout K) (t t' : ℕ → Slot K V) (k : K) (v : V)
    (d : ℕ) : Type 0 where
  pub proper : k ≢ L.vacant
  pub found : locate L t k ≡ some d
  pub there : t' (spot L k d) ≡ record { key = k; value = v }
  pub elsewhere : (j : ℕ) → j ≢ spot L k d → t' j ≡ t j

module _ {K V : Type 0} ⦃e : Eq K⦄ {L : Layout K} {t t' : ℕ → Slot K V} (placed : IsPlaced L t)
    {k : K} {v : V} {d : ℕ} (w : IsWritten L t t' k v d) where
  -- Every other slot holds another key than `k`.
  others : (j : ℕ) → j ≢ spot L k d → (t j).key ≢ k
  others j ne h =
      let (d', r) = placed j (rw h w.proper) in
      let r' : IsReached L t k d' j = subst (λ q. IsReached L t q d' j) h r in
      let same : d' ≡ d = some_inj (sym (IsReached-locate L t k r' h) ∙ w.found) in
      ne (sym r'.here ∙ ap (spot L k) same)

  -- A probe that passed over its slot for a key other than `k` still does.
  still_passes :
      (q : K) (j : ℕ)
      → q ≢ k
      → ((t j).key ≢ L.vacant) × ((t j).key ≢ q)
      → ((t' j).key ≢ L.vacant) × ((t' j).key ≢ q)
  still_passes q j ne h = elim (Bool-cases (j == spot L k d)) [
    | inl p ↦ rw (==→eq _ _ p, w.there) (w.proper, λ x. ne (sym x))
    | inr p ↦ rw (w.elsewhere j (==→ne _ _ p)) h
  ]

  placed_at : (j : ℕ) (q : K) → (t' j).key ≡ q → q ≢ L.vacant → (c : ℕ) × IsReached L t' q c j
  placed_at j q h ne = elim (Bool-cases (j == spot L k d)) [
    | inl p ↦
        let at_end = ==→eq _ _ p in
        let is_k : k ≡ q = sym (ap (λ x. x.key) (ap t' at_end ∙ w.there)) ∙ h in
        let (r, _) = locate-IsReached L t k w.found in
        (
          d,
          subst (λ x. IsReached L t' x d j) is_k
              (record {
                bound = r.bound;
                here = sym at_end;
                before = λ i i<d.
                    rw
                      (w.elsewhere (spot L k i) (λ x.
                        omega
                          (arith, round_injective L.size (L.home k) i d (omega arith) r.bound x)))
                      (r.before i i<d);
              }),
        )
    | inr p ↦
        let off_end = ==→ne _ _ p in
        let was : (t j).key ≡ q = ap (λ x. x.key) (sym (w.elsewhere j off_end)) ∙ h in
        let (c, r) = placed j (rw was ne) in
        let r' : IsReached L t q c j = subst (λ x. IsReached L t x c j) was r in
        let other : q ≢ k = λ x. others j off_end (was ∙ x) in
        (
          c,
          record {
            bound = r'.bound;
            here = r'.here;
            before = λ i i<c. still_passes q (spot L q i) other (r'.before i i<c);
          },
        )
  ]

  -- The write keeps the table in order.
  pub write-IsPlaced : IsPlaced L t'
  write-IsPlaced j ne = placed_at j (t' j).key refl ne

  kept : (q : K) → q ≢ L.vacant → q ≢ k → (j : ℕ) → (t j).key ≡ q → t' j ≡ t j
  kept q ne other j h = w.elsewhere j λ x. elim ((locate-IsReached L t k w.found).1) [
    | inl p ↦ ne (sym h ∙ ap (λ y. (t y).key) x ∙ p)
    | inr p ↦ other (sym h ∙ ap (λ y. (t y).key) x ∙ p)
  ]

  view-other : (q : K) → q ≢ L.vacant → q ≢ k → view L t' q ≡ view L t q
  view-other q ne other = elim (Option-cases (view L t q)) [
    | inr (x, h) ↦
        let (j, key, val) = slot_of_view L t q h in
        let same = kept q ne other j key in
        view_of_slot L t' write-IsPlaced j q (ap (λ y. y.key) same ∙ key) ne
        ∙ ap some (ap (λ y. y.value) same ∙ val)
        ∙ sym h
    | inl h ↦ elim (Option-cases (view L t' q)) [
      | inl h' ↦ h' ∙ sym h
      | inr (x, h') ↦
          let (j, key, val) = slot_of_view L t' q h' in
          let off : j ≢ spot L k d =
            λ z. other (sym key ∙ ap (λ y. (t' y).key) z ∙ ap (λ y. y.key) w.there) in
          let was : (t j).key ≡ q = ap (λ y. y.key) (sym (w.elsewhere j off)) ∙ key in
          let bad : none ≡ some (t j).value = sym h ∙ view_of_slot L t placed j q was ne in
          absurd (cc)
    ]
  ]

  -- The write binds the key to the value, and leaves every other binding as it was.
  pub view-write :
      (q : K) → q ≢ L.vacant → view L t' q ≡ (if e.same q k then some v else view L t q)
  view-write q ne = elim (Bool-cases (e.same q k)) [
    | inl p ↦
        let is_k = (e.same_iff q k).0 p in
        rw p (
          view_of_slot L t' write-IsPlaced (spot L k d) q (ap (λ y. y.key) w.there ∙ sym is_k) ne
          ∙ ap (λ y. some y.value) w.there)
    | inr p ↦ rw p (view-other q ne (ne_of_same q k p))
  ]
