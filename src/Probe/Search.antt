-- ===== src/Probe/Search.antt =====
-- Where a search ends, in terms of the keys in the slots, and the geometry of the probes.
use native.Mathlib.Nat.{mod-lt, mod-eq_of_lt, mod-add-mod, mod-eq-sub-mod, zero-add}
use net_blast.Base.{
  ℕ, ◌+◌, ◌-◌, ◌%◌, ◌≤◌, ◌<◌, ◌≡◌, ◌≢◌, true, false, none, some, ◌⊎◌, inl, inr, refl, ◌∙◌, arith,
  Eq, Bool-cases, ltb, ne_of_same, same_ne, first-Ends, first-eq-some, first-eq-none, same_refl,
  Ends,
}
use net_blast.Probe.{Slot, Layout, spot, stops, locate, IsReached}

pub one_turn :
    (m r i : ℕ)
    → r < m
    → i < m
    → ((r + i < m) × ((r + i) % m ≡ r + i)) ⊎ ((m ≤ r + i) × ((r + i) % m ≡ r + i - m))
one_turn m r i p q = elim (Bool-cases (ltb (r + i) m)) [
  | inl h ↦ let a : r + i < m = ground arith in inl (a, mod-eq_of_lt a)
  | inr h ↦
      let a : m ≤ r + i = ground arith in inr (a, mod-eq-sub-mod a ∙ mod-eq_of_lt (omega arith))
]

-- Two of the first `m` steps round a ring of `m` places end at the same place only if they are one.
pub round_injective : (m h i j : ℕ) → i < m → j < m → (h + i) % m ≡ (h + j) % m → i ≡ j
round_injective m h i j p q e =
    let pos : 0 < m = omega arith in
    let r = mod-lt h pos in
    omega (
      arith,
      mod-add-mod h m i,
      mod-add-mod h m j,
      one_turn m (h % m) i r p,
      one_turn m (h % m) j r q,
    )

-- Every place of a ring is reached in fewer than `m` steps.
pub round_reaches : (m h s : ℕ) → s < m → (d : ℕ) × (d < m) × ((h + d) % m ≡ s)
round_reaches m h s p =
    let pos : 0 < m = omega arith in
    let r = mod-lt h pos in
    elim (Bool-cases (ltb s (h % m))) [
      | inl q ↦
          let d : ℕ = s + m - h % m in
          (d, ground arith, ground (arith, mod-add-mod h m d, one_turn m (h % m) d r))
      | inr q ↦
          let d : ℕ = s - h % m in
          (d, ground arith, ground (arith, mod-add-mod h m d, one_turn m (h % m) d r))
    ]

module _ {K V : Type 0} ⦃e : Eq K⦄ (L : Layout K) (t : ℕ → Slot K V) (k : K) where
  pub stops-true :
      (i : ℕ)
      → stops L t k i ≡ true
      → ((t (spot L k i)).key ≡ L.vacant) ⊎ ((t (spot L k i)).key ≡ k)
  unfolding stops
  stops-true i h =
      let s = t (spot L k i) in
      elim (Bool-cases (e.same s.key L.vacant)) [
        | inl p ↦ inl ((e.same_iff _ _).0 p)
        | inr p ↦ inr ((e.same_iff _ _).0 (ground arith))
      ]

  pub stops-false :
      (i : ℕ)
      → stops L t k i ≡ false
      → ((t (spot L k i)).key ≢ L.vacant) × ((t (spot L k i)).key ≢ k)
  unfolding stops
  stops-false i h =
      let s = t (spot L k i) in (ne_of_same _ _ (ground arith), ne_of_same _ _ (ground arith))

  pub stops_at :
      (i : ℕ)
      → ((t (spot L k i)).key ≡ L.vacant) ⊎ ((t (spot L k i)).key ≡ k)
      → stops L t k i ≡ true
  unfolding stops
  stops_at i (inl p) = rw (p, same_refl L.vacant)
  stops_at i (inr p) = let s = t (spot L k i) in ground (arith, (e.same_iff s.key k).1 p)

  pub passes_at :
      (i : ℕ)
      → ((t (spot L k i)).key ≢ L.vacant) × ((t (spot L k i)).key ≢ k)
      → stops L t k i ≡ false
  unfolding stops
  passes_at i h =
      let s = t (spot L k i) in ground (arith, same_ne s.key L.vacant h.0, same_ne s.key k h.1)

  -- A key that is reached at probe `d` is located there.
  pub IsReached-locate : {d s : ℕ} → IsReached L t k d s → (t s).key ≡ k → locate L t k ≡ some d
  unfolding locate
  IsReached-locate {d} {s} r h =
      first-eq-some (stops L t k) L.size 0 d (omega arith) (rw zero-add r.bound)
        (stops_at d (inr (rw r.here h))) (λ j a b. passes_at j (r.before j b))

  -- The search that ends at probe `d` is in range, and passed no empty slot and no slot of `k`.
  pub locate-IsReached :
      {d : ℕ}
      → locate L t k ≡ some d
      → IsReached L t k d (spot L k d)
        × (((t (spot L k d)).key ≡ L.vacant) ⊎ ((t (spot L k d)).key ≡ k))
  unfolding locate
  locate-IsReached {d} h =
      let f : Ends (stops L t k) L.size 0 (some d) = rw h at (first-Ends (stops L t k) L.size 0) in
      (
        record {
          bound = omega arith;
          here = refl;
          before = λ i p. stops-false i (f.3 i (omega arith) p);
        },
        stops-true d f.2,
      )

  -- The search that fails has seen every slot: none is empty, and none holds the key.
  pub locate-none :
      locate L t k ≡ none → (s : ℕ) → s < L.size → ((t s).key ≢ L.vacant) × ((t s).key ≢ k)
  unfolding locate
  locate-none h s p =
      let f : Ends (stops L t k) L.size 0 none = rw h at (first-Ends (stops L t k) L.size 0) in
      let (d, q, r) = round_reaches L.size (L.home k) s p in
      rw r at (stops-false d (f d (omega arith) (rw zero-add q)))

  pub locate-eq-none : ((s : ℕ) → ((t s).key ≢ L.vacant) × ((t s).key ≢ k)) → locate L t k ≡ none
  unfolding locate
  locate-eq-none h = first-eq-none (stops L t k) L.size 0 (λ j a b. passes_at j (h (spot L k j)))
