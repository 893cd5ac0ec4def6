-- ===== src/Dramblast/Concurrent/Affinity.antt =====
-- Cores that insert flows at once, each flow with the backend that its hash selects.
use net_blast.Base.{
  ℕ, ◌≤◌, ◌≡◌, ◌≢◌, ◌⊎◌, inl, inr, refl, ap, ◌∙◌, sym, arith, Bool-cases, List, [], ◌∷◌, Option,
  some, if◌then◌else◌, ◌==◌, ==→eq, eq→==, pos, nat_eq,
}
use net_blast.WordTable.{Pair, IsTable, contents}
use net_blast.Capacity.{IsCapacity}
use net_blast.Dramblast.{dramblast_hash}
use net_blast.Dramblast.Concurrent.{Call, Core, System, interleave}
use net_blast.Dramblast.Concurrent.Effects.{stored}
use net_blast.Dramblast.Concurrent.Schedules.{times, bind_each}
use net_blast.Dramblast.Concurrent.Serial.{start, interleave-IsSerial}

module _ (crc : ℕ → ℕ) {len : ℕ} (valid : IsCapacity len) (keys backend : ℕ → ℕ) where
  abbrev home : ℕ → ℕ
  home = dramblast_hash crc len

  abbrev values : ℕ → ℕ
  values i = backend (keys i)

  bind_each-backend :
      (writes : List ℕ) (f : ℕ → Option ℕ) (q : ℕ)
      → f q ≡ some (backend q)
      → bind_each crc valid keys values writes f q ≡ some (backend q)
  unfolding bind_each
  bind_each-backend [] f q h = h
  bind_each-backend (i ∷ rest) f q h = bind_each-backend rest _ q (elim (Bool-cases (q == keys i)) [
    | inl p ↦ rw p (ap (λ x. some (backend x)) (sym (==→eq _ _ p)))
    | inr p ↦ rw p h
  ])

  bind_each-cases :
      (writes : List ℕ) (f : ℕ → Option ℕ) (q : ℕ)
      → (bind_each crc valid keys values writes f q ≡ f q)
        ⊎ (bind_each crc valid keys values writes f q ≡ some (backend q))
  unfolding bind_each
  bind_each-cases [] f q = inl refl
  bind_each-cases (i ∷ rest) f q = elim (Bool-cases (q == keys i)) [
    | inl p ↦
        inr (bind_each-backend rest _ q (rw p (ap (λ x. some (backend x)) (sym (==→eq _ _ p)))))
    | inr p ↦ elim (bind_each-cases rest (λ x. if x == keys i then some (values i) else f x) q) [
      | inl h ↦ inl (h ∙ rw p refl)
      | inr h ↦ inr h
    ]
  ]

  bind_each-bound :
      (writes : List ℕ) (f : ℕ → Option ℕ) (i : ℕ)
      → 1 ≤ times i writes
      → bind_each crc valid keys values writes f (keys i) ≡ some (backend (keys i))
  unfolding bind_each times
  bind_each-bound [] f i h = absurd (omega arith)
  bind_each-bound (j ∷ rest) f i h = elim (Bool-cases (i == j)) [
    | inl p ↦
        bind_each-backend rest _ (keys i)
          (rw (eq→== _ _ (ap keys (==→eq _ _ p))) (ap (λ x. some (values x)) (sym (==→eq _ _ p))))
    | inr p ↦ bind_each-bound rest _ i (rw p at h)
  ]

  module _ (table : List Pair) (ok : IsTable len home table) where
    -- What the cores leave: `backend` at every key that was inserted, and else what was there.
    pub record IsSettled (s : System) : Type 0 where
      pub in_order : IsTable len home s.table
      pub inserted :
          (i : ℕ) (c : Call)
          → s.cores i ≡ Core.returned c (pos 0)
          → contents len home s.table (keys i) ≡ some (backend (keys i))
      pub others :
          (q : ℕ)
          → q ≢ 0
          → (contents len home s.table q ≡ contents len home table q)
            ⊎ (contents len home s.table q ≡ some (backend q))

    -- On a table in order, of a length that -c accepts, cores that insert flows at once, each with
    -- the backend that is a function of the flow, as in `dramblast_process_frames`, agree on every
    -- flow, in whatever order they take their steps: no access is out of range, the table stays in
    -- order, a flow whose insertion returned 0 has its backend, also if other cores inserted it too,
    -- and every other flow has the value that it had, or its own backend.
    pub interleave-IsSettled :
        (schedule : List ℕ)
        → (s : System) × (interleave len schedule (start crc valid keys values table ok) ≡ some s)
          × IsSettled s
    interleave-IsSettled schedule =
        let (s, writes, run, r) = interleave-IsSerial crc valid keys values table ok schedule in
        (
          s,
          run,
          record {
            in_order = r.in_order;
            inserted = λ i c at.
                r.binds (keys i) (r.proper i c at)
                ∙ bind_each-bound writes _ i (omega (arith, r.once i, ap stored at));
            others = λ q ne. elim (bind_each-cases writes (contents len home table) q) [
              | inl h ↦ inl (r.binds q ne ∙ h)
              | inr h ↦ inr (r.binds q ne ∙ h)
            ];
          },
        )
