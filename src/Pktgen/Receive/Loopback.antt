-- ===== src/Pktgen/Receive/Loopback.antt =====
-- A receiving core counts what the sending cores sent.
use net_blast.Base.{
  ℕ, ◌+◌, ◌*◌, ◌/◌, ◌≡◌, inl, inr, refl, ap₂, ◌∙◌, subst, arith, List, [], ◌∷◌, length, some, All,
  Bool-cases, ltb, ◌==◌, u64, sub64, nat_eq,
}
use net_blast.Pktgen.{Globals, WorkerStats, wire_overhead}
use net_blast.Pktgen.Transmit.Bursts.{frame_len, IsPayload}
use net_blast.Pktgen.Receive.{
  Mbuf, RxState, RxInput, publish_rx, show_due, rx_round, rx_rounds, rx_worker_loop,
}
use net_blast.Pktgen.Receive.Frames.{
  IsArrived, delays, IsRxInput, received, all_delays, IsRx, rx_frames-IsRx,
}

module _ (cksum : List ℕ → ℕ) (g : Globals) where
  -- What the receiving part of a core leaves alone of its statistics.
  abbrev pub SameTx : WorkerStats → WorkerStats → Type 0
  SameTx stats stats' = (stats'.tx_pkts ≡ stats.tx_pkts) × (stats'.tx_bytes ≡ stats.tx_bytes)

  -- The same with the count of the frames.
  abbrev pub IsCountedRx : ℕ → ℕ → RxState → Type 0
  IsCountedRx pkts cycles s = IsRx cksum g pkts cycles s × (s.local_pkts ≡ u64 pkts)

  show_due-IsCountedRx :
      (pkts cycles cur_tsc : ℕ) (s : RxState) (stats : WorkerStats)
      → IsCountedRx pkts cycles s
      → IsCountedRx pkts cycles (show_due g cur_tsc s stats).0
        × SameTx stats (show_due g cur_tsc s stats).1
  unfolding show_due
  show_due-IsCountedRx pkts cycles cur_tsc s stats (rx, n) =
      elim (Bool-cases (ltb (sub64 cur_tsc s.last_tsc) (g.timer_hz / 10))) [
        | inl p ↦ rw p ((rx, n), (refl, refl))
        | inr p ↦ rw p ((record { bytes = rx.bytes; latency = rx.latency }, n), (refl, refl))
      ]

  moved : {p p' c c' : ℕ} {s : RxState} → p ≡ p' → c ≡ c' → IsCountedRx p c s → IsCountedRx p' c' s
  moved {s = s} e f h = subst (λ (x : ℕ × ℕ). IsCountedRx x.0 x.1 s) (ap₂ (λ x y. (x, y)) e f) h

  no_delays :
      (rx_tsc : ℕ) (bufs : List Mbuf) (h : All (IsArrived cksum g) bufs)
      → length bufs ≡ 0
      → delays cksum g rx_tsc bufs h ≡ 0
  no_delays rx_tsc [] h e = refl
  no_delays rx_tsc (m ∷ bufs) h e = absurd (omega arith)

  rx_round-IsCountedRx :
      (input : RxInput) (h : IsRxInput cksum g input) (pkts cycles : ℕ) (s : RxState)
      (stats : WorkerStats)
      → IsPayload g
      → IsCountedRx pkts cycles s
      → (s' : RxState) × (stats' : WorkerStats) × (rx_round g input s stats ≡ some (s', stats'))
        × IsCountedRx
            (pkts + length input.bufs)
            (cycles + delays cksum g input.rx_tsc input.bufs h.0)
            s'
        × SameTx stats stats'
  unfolding rx_round
  rx_round-IsCountedRx input h pkts cycles s stats payload (rx, n) =
      let (s1, e, rx1, same) =
        rx_frames-IsRx cksum g input.bufs h.0 input.rx_tsc pkts cycles s payload h.1 rx in
      let s2 : RxState = record s1 { local_pkts = u64 (s1.local_pkts + length input.bufs) } in
      let counted : IsCountedRx (pkts + length input.bufs)
          (cycles + delays cksum g input.rx_tsc input.bufs h.0) s2 =
        (record { bytes = rx1.bytes; latency = rx1.latency }, omega (arith, same, n)) in
      let (shown, kept) = show_due-IsCountedRx _ _ input.cur_tsc s2 stats counted in
      elim (Bool-cases (length input.bufs == 0)) [
        | inl p ↦ (
          s,
          stats,
          rw p refl,
          let none_left : length input.bufs ≡ 0 = ground arith in
              moved (omega arith) (omega (arith, no_delays input.rx_tsc input.bufs h.0 none_left))
                (rx, n),
          (refl, refl),
        )
        | inr p ↦ (
          (show_due g input.cur_tsc s2 stats).0,
          (show_due g input.cur_tsc s2 stats).1,
          rw (p, e) refl,
          shown,
          kept,
        )
      ]

  -- What the statistics show when the loop has ended.
  pub record ShowsRx (pkts cycles : ℕ) (stats stats' : WorkerStats) : Type 0 where
    pub rx_pkts : stats'.rx_pkts ≡ u64 pkts
    pub rx_bytes : stats'.rx_bytes ≡ u64 (pkts * (frame_len g + wire_overhead))
    pub total_latency_cycles : stats'.total_latency_cycles ≡ u64 cycles
    pub rest : SameTx stats stats'

  shows_moved :
      {p p' c c' : ℕ} {stats stats' : WorkerStats}
      → p ≡ p'
      → c ≡ c'
      → ShowsRx p c stats stats'
      → ShowsRx p' c' stats stats'
  shows_moved {stats = stats} {stats' = stats'} e f h =
      subst (λ (x : ℕ × ℕ). ShowsRx x.0 x.1 stats stats') (ap₂ (λ x y. (x, y)) e f) h

  rx_rounds-ShowsRx :
      (inputs : List RxInput) (h : All (IsRxInput cksum g) inputs) (pkts cycles : ℕ) (s : RxState)
      (stats : WorkerStats)
      → IsPayload g
      → IsCountedRx pkts cycles s
      → (s' : RxState) × (stats' : WorkerStats) × (rx_rounds g inputs s stats ≡ some (s', stats'))
        × ShowsRx
            (pkts + received cksum g inputs)
            (cycles + all_delays cksum g inputs h)
            stats
            stats'
  unfolding rx_rounds
  rx_rounds-ShowsRx [] h pkts cycles s stats payload counted =
      let (rx, n) : IsCountedRx (pkts + 0) (cycles + 0) s =
        moved (omega arith) (omega arith) counted in
      (
        s,
        publish_rx s stats,
        refl,
        record {
          rx_pkts = n;
          rx_bytes = rx.bytes;
          total_latency_cycles = rx.latency;
          rest = (refl, refl);
        },
      )
  rx_rounds-ShowsRx (input ∷ inputs) h pkts cycles s stats payload counted =
      let (s1, stats1, e, counted1, kept) =
        rx_round-IsCountedRx input h.0 pkts cycles s stats payload counted in
      let (s2, stats2, e2, shows) = rx_rounds-ShowsRx inputs h.1 _ _ s1 stats1 payload counted1 in
      (
        s2,
        stats2,
        rw e e2,
        shows_moved (omega arith) (omega arith) (record {
          rx_pkts = shows.rx_pkts;
          rx_bytes = shows.rx_bytes;
          total_latency_cycles = shows.total_latency_cycles;
          rest = (shows.rest.0 ∙ kept.0, shows.rest.1 ∙ kept.1);
        }),
      )

  -- If every frame that arrives was built by a sending core with the same payload size, one that the
  -- options leave, and arrives whole, then `rx_worker_loop` reads nothing behind a frame, and at
  -- the end the statistics show the number of frames, their bytes on the wire, and the sum of the
  -- times from the stamp of a frame to that of its burst, where a stamp that is later counts as 0,
  -- each up to the wrap-around at 64 bits; they are otherwise as before.
  pub rx_worker_loop-ShowsRx :
      (inputs : List RxInput) (h : All (IsRxInput cksum g) inputs) (tsc : ℕ) (stats : WorkerStats)
      → IsPayload g
      → (s' : RxState) × (stats' : WorkerStats) × (rx_worker_loop g inputs tsc stats
          ≡ some (s', stats'))
        × ShowsRx (received cksum g inputs) (all_delays cksum g inputs h) stats stats'
  unfolding rx_worker_loop
  rx_worker_loop-ShowsRx inputs h tsc stats payload =
      let start : RxState = record {
        local_pkts = 0;
        local_bytes = 0;
        local_latency_cycles = 0;
        last_tsc = tsc;
      } in
      let (s', stats', e, shows) =
        rx_rounds-ShowsRx inputs h 0 0 start stats payload
          (record { bytes = omega arith; latency = omega arith }, omega arith) in
      (s', stats', e, shows_moved (omega arith) (omega arith) shows)
