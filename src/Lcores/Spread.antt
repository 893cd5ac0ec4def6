-- ===== src/Lcores/Spread.antt =====
-- Which cores get queues, and how many.
use native.Mathlib.Decide.{ℕ_discrete}
use mathlib.Core.List.{Perm, perm_middle}
use mathlib.Core.List.Perm
use net_blast.Base.{
  ℕ, zero, suc, ◌+◌, ◌^◌, ◌<◌, ◌≤◌, ◌≡◌, ◌≢◌, ◌∙◌, inl, inr, refl, ap, sym, arith, ◌==◌, leb, not,
  ◌||◌, Bool, true, false, Bool-cases, ==→ne, List, [], ◌∷◌, ◌++◌, length, length-append, get_elem?,
  get_elem?_in_range, get_or, get_or-set_self, get_or-set_ne, get_elem?-eq-get_or, set, ◌>>=◌,
  Option-cases, some, some_inj, subst, bit_and,
}
use net_blast.Lcores.Queues.{assigned, assigned-set, queues_of, all_queues, assigned_before}
use net_blast.Lcores.{
  max_rx_queue_per_lcore, Confs, is_skipped, next_lcore, assign_queue, assign_port, assign_ports,
}

module _ (max_lcore : ℕ) (is_enabled : ℕ → Bool) (main_lcore : ℕ) where
  -- No core has more queues than its list has room for, and only enabled cores other than the main
  -- core have queues.
  pub record AreSpread (confs : Confs) : Type 0 where
    pub room : (i : ℕ) → length (get_or confs i []) ≤ max_rx_queue_per_lcore
    pub workers :
        (i : ℕ) → length (get_or confs i []) ≢ 0 → (is_enabled i ≡ true) × (i ≢ main_lcore)

  -- what is known of the core that was found
  record IsChosen (confs : Confs) (rx : ℕ) : Type 0 where
    free : length (get_or confs rx []) ≢ max_rx_queue_per_lcore
    enabled : is_enabled rx ≡ true
    worker : rx ≢ main_lcore
    inside : rx < length confs

  not_skipped :
      (confs : Confs) (rx : ℕ)
      → is_skipped max_lcore is_enabled main_lcore confs rx ≡ some false
      → IsChosen confs rx
  unfolding is_skipped
  not_skipped confs rx h = elim (Bool-cases (is_enabled rx)) [
    | inr p ↦ let e = rw p at h in absurd (cc)
    | inl p ↦ elim (Bool-cases (rx == main_lcore)) [
      | inl q ↦ let e = rw (p, q) at h in absurd (cc)
      | inr q ↦ elim (Option-cases (get_elem? confs rx)) [
        | inl n ↦ let e = rw (p, q, n) at h in absurd (cc)
        | inr (queues, n) ↦
            let same : get_or confs rx [] ≡ queues =
              some_inj
                (sym (get_elem?-eq-get_or confs rx [] (get_elem?_in_range confs rx n)) ∙ n) in
            record {
              free = rw same (==→ne _ _ (some_inj (rw (p, q, n) at h)));
              enabled = p;
              worker = ==→ne _ _ q;
              inside = get_elem?_in_range confs rx n;
            }
      ]
    ]
  ]

  next_lcore-IsChosen :
      (fuel : ℕ) (confs : Confs) (start : ℕ) {rx : ℕ}
      → next_lcore max_lcore is_enabled main_lcore fuel confs start ≡ some rx
      → IsChosen confs rx
  unfolding next_lcore
  next_lcore-IsChosen zero confs start h = absurd (cc)
  next_lcore-IsChosen (suc fuel) confs start h =
      elim (Option-cases (is_skipped max_lcore is_enabled main_lcore confs start)) [
        | inl n ↦ let e = rw n at h in absurd (cc)
        | inr (skipped, n) ↦ elim (Bool-cases skipped) [
          | inr p ↦
              let found = some_inj (rw (n, p) at h) in
              subst (IsChosen confs) found (not_skipped confs start (n ∙ ap some p))
          | inl p ↦ elim (Bool-cases (leb max_lcore (start + 1))) [
            | inl q ↦ let e = rw (n, p, q) at h in absurd (cc)
            | inr q ↦ next_lcore-IsChosen fuel confs (start + 1) (rw (n, p, q) at h)
          ]
        ]
      ]

  assign_queue-AreSpread :
      (port queue : ℕ) (state : Confs × ℕ) {state' : Confs × ℕ}
      → AreSpread state.0
      → assign_queue max_lcore is_enabled main_lcore port queue state ≡ some state'
      → AreSpread state'.0 × Perm (assigned state'.0) ((port, queue) ∷ assigned state.0)
  unfolding assign_queue
  assign_queue-AreSpread port queue (confs, start) v h =
      elim (Option-cases (next_lcore max_lcore is_enabled main_lcore (max_lcore + 1) confs start)) [
        | inl n ↦ let e = rw n at h in absurd (cc)
        | inr (rx, n) ↦
            let c = next_lcore-IsChosen (max_lcore + 1) confs start n in
            let old = get_or confs rx [] in
            let read = get_elem?-eq-get_or confs rx [] c.inside in
            let same = some_inj (rw (n, ◌>>=◌, read) at h) in
            subst (λ s. AreSpread s.0 × Perm (assigned s.0) ((port, queue) ∷ assigned confs)) same
              (grown rx c, assigned-set confs rx (port, queue) c.inside)
      ]
    where
      grown :
          (rx : ℕ)
          → IsChosen confs rx
          → AreSpread (set confs rx (get_or confs rx [] ++ (port, queue) ∷ []))
      grown rx c = record {
        room = λ i. elim (ℕ_discrete rx i) [
          | yes p ↦ rw (← p, here) (omega (arith, v.room rx, c.free, longer))
          | no p ↦ rw (get_or-set_ne confs rx i new [] p) (v.room i)
        ];
        workers = λ i used. elim (ℕ_discrete rx i) [
          | yes p ↦ rw (← p) (c.enabled, c.worker)
          | no p ↦ v.workers i (rw (get_or-set_ne confs rx i new [] p) at used)
        ];
      }
        where
          new : List (ℕ × ℕ)
          new = get_or confs rx [] ++ (port, queue) ∷ []

          here : get_or (set confs rx new) rx [] ≡ new
          here = get_or-set_self confs rx new [] c.inside

          longer : length new ≡ length (get_or confs rx []) + 1
          longer = length-append (get_or confs rx []) ((port, queue) ∷ [])

  assign_port-AreSpread :
      (port n q : ℕ) (state : Confs × ℕ) {state' : Confs × ℕ}
      → AreSpread state.0
      → assign_port max_lcore is_enabled main_lcore port n q state ≡ some state'
      → AreSpread state'.0 × Perm (assigned state'.0) (queues_of port n q ++ assigned state.0)
  unfolding assign_port
  assign_port-AreSpread port zero q state v h =
      subst (λ s. AreSpread s.0 × Perm (assigned s.0) (assigned state.0)) (some_inj h)
        (v, Perm.refl (assigned state.0))
  assign_port-AreSpread port (suc n) q state v h =
      elim (Option-cases (assign_queue max_lcore is_enabled main_lcore port q state)) [
        | inl e ↦ let refused = rw e at h in absurd (cc)
        | inr (next, e) ↦
            let (w, one) = assign_queue-AreSpread port q state v e in
            let (u, rest) = assign_port-AreSpread port n (q + 1) next w (rw e at h) in
            (
              u,
              Perm.trans rest (
                  Perm.trans (Perm.append_left (queues_of port n (q + 1)) one)
                    (perm_middle (queues_of port n (q + 1)) (assigned state.0))),
            )
      ]

  -- From configurations in which no core has more queues than its list has room for, and only
  -- enabled cores other than the main core have queues: if `main` does not give up, this holds
  -- afterwards, and each of the first `queues_per_port` queues of every enabled port was assigned to
  -- one core, once, beside the queues that were assigned before.
  pub assign_ports-AreSpread :
      (mask queues_per_port : ℕ) (ports : List ℕ) (state : Confs × ℕ) {state' : Confs × ℕ}
      → AreSpread state.0
      → assign_ports max_lcore is_enabled main_lcore mask queues_per_port ports state ≡ some state'
      → AreSpread state'.0
        × Perm (assigned state'.0) (all_queues mask queues_per_port ports ++ assigned state.0)
  unfolding assign_ports
  assign_ports-AreSpread mask n [] state v h =
      subst (λ s. AreSpread s.0 × Perm (assigned s.0) (assigned state.0)) (some_inj h)
        (v, Perm.refl (assigned state.0))
  assign_ports-AreSpread mask n (port ∷ ports) state v h =
      elim (Bool-cases (bit_and mask (2 ^ port) == 0)) [
        | inl p ↦
            let (u, e) = assign_ports-AreSpread mask n ports state v (rw (assign_ports, p) at h) in
            (u, rw p e)
        | inr p ↦ elim (Option-cases (assign_port max_lcore is_enabled main_lcore port n 0 state)) [
          | inl e ↦ let refused = rw (assign_ports, p, e) at h in absurd (cc)
          | inr (next, e) ↦
              let (w, some_more) = assign_port-AreSpread port n 0 state v e in
              let (u, rest) =
                assign_ports-AreSpread mask n ports next w (rw (assign_ports, p, e) at h) in
              let here = queues_of port n 0 in
              let later = all_queues mask n ports in
              (
                u,
                rw p (
                    Perm.trans rest (
                      Perm.trans (Perm.append_left later some_more)
                        (assigned_before here later (assigned state.0)))),
              )
        ]
      ]

  -- A usable core that is not before the start of the search is enough for the search to succeed.
  pub next_lcore_lem :
      (fuel : ℕ) (confs : Confs) (start j : ℕ)
      → length confs ≡ max_lcore
      → start ≤ j
      → j < start + fuel
      → j < max_lcore
      → is_skipped max_lcore is_enabled main_lcore confs j ≡ some false
      → (rx : ℕ) × (next_lcore max_lcore is_enabled main_lcore fuel confs start ≡ some rx)
        × (rx ≤ j)
  unfolding next_lcore is_skipped
  next_lcore_lem zero confs start j sized from fits inside free = absurd (omega arith)
  next_lcore_lem (suc fuel) confs start j sized from fits inside free =
      let (skipped, e) = answers start (omega arith) in
      elim (Bool-cases skipped) [
        | inr p ↦ (start, rw (e, p) refl, from)
        | inl p ↦
            let further : start ≢ j = λ same. differ (
              sym free
              ∙ sym (ap (is_skipped max_lcore is_enabled main_lcore confs) same)
              ∙ e
              ∙ ap some p) in
            let more : leb max_lcore (start + 1) ≡ false = ground arith in
            let (rx, found, close) =
              next_lcore_lem fuel confs (start + 1) j sized (omega arith) (omega arith) inside
                free in
            (rx, rw (e, p, more) found, close)
      ]
    where
      differ : some false ≢ some true
      differ x = cc

      answers :
          (i : ℕ)
          → i < max_lcore
          → (skipped : Bool) × (is_skipped max_lcore is_enabled main_lcore confs i ≡ some skipped)
      answers i l = elim (Bool-cases (not (is_enabled i) || i == main_lcore)) [
        | inl p ↦ (true, rw p refl)
        | inr p ↦ (
          length (get_or confs i []) == max_rx_queue_per_lcore,
          rw (p, get_elem?-eq-get_or confs i [] (omega arith)) refl,
        )
      ]
