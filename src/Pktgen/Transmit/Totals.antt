-- ===== src/Pktgen/Transmit/Totals.antt =====
-- What a sending core has sent, and what it has counted, whatever the device and the pool do.
use native.Mathlib.Nat.{add-mul, mul-le-mul}
use net_blast.Base.{
  ℕ, ◌+◌, ◌*◌, ◌/◌, ◌≤◌, ◌<◌, ◌≡◌, inl, inr, refl, ◌∙◌, subst, arith, List, [], ◌∷◌, ◌++◌, length,
  length-append, length-take, take, some, All, Bool-cases, ltb, u32, u64, sub64,
}
use net_blast.Pktgen.{Globals, LcoreConf, WorkerStats, wire_overhead, burst_size}
use net_blast.Pktgen.Transmit.{
  TxState, TxInput, wire_len, count_sent, publish_due, publish_tx, tx_round, tx_rounds,
  tx_worker_loop,
}
use net_blast.Pktgen.Transmit.Bursts.{
  frame_len, IsPayload, IsTxInput, AreNumbered, IsTx, take-AreNumbered, append-AreNumbered,
  build_frames-AreNumbered,
}

-- The bytes on the wire of one more burst.
bytes_step :
    (total nb_tx per : ℕ) {bytes : ℕ}
    → nb_tx ≤ burst_size
    → per ≤ 1466
    → bytes ≡ u64 (total * per)
    → u64 (bytes + u32 (nb_tx * per)) ≡ u64 ((total + nb_tx) * per)
bytes_step total nb_tx per few low e = omega (arith, add-mul total nb_tx per, mul-le-mul few low)

-- What the sending part of a core leaves alone of its statistics.
abbrev pub SameRx : WorkerStats → WorkerStats → Type 0
SameRx stats stats' =
    (stats'.rx_pkts ≡ stats.rx_pkts)
    × (stats'.rx_bytes ≡ stats.rx_bytes)
    × (stats'.total_latency_cycles ≡ stats.total_latency_cycles)

-- What the statistics show when the loop has ended.
pub record Shows (g : Globals) (total : ℕ) (stats stats' : WorkerStats) : Type 0 where
  pub tx_pkts : stats'.tx_pkts ≡ u64 total
  pub tx_bytes : stats'.tx_bytes ≡ u64 (total * (frame_len g + wire_overhead))
  pub rest : SameRx stats stats'

module _ (cksum : List ℕ → ℕ) (g : Globals) (lcore_id : ℕ) (conf : LcoreConf)
    (six : length conf.port_mac ≡ 6) (known : lcore_id < 128) (payload : IsPayload g) where
  count_sent-IsTx :
      (total nb_tx : ℕ) (s : TxState)
      → nb_tx ≤ burst_size
      → IsTx cksum g lcore_id conf total s
      → IsTx cksum g lcore_id conf (total + nb_tx) (count_sent cksum g lcore_id conf s nb_tx)
  unfolding count_sent
  count_sent-IsTx total nb_tx s few tx = elim (Bool-cases (ltb 0 nb_tx)) [
    | inl p ↦ rw p (record {
      pkts = omega (arith, tx.pkts);
      bytes =
          let same : wire_len cksum g lcore_id conf ≡ frame_len g + wire_overhead = omega arith in
          rw same (bytes_step total nb_tx (frame_len g + wire_overhead) few (omega arith) tx.bytes);
      port = tx.port;
    })
    | inr p ↦
        let zero_sent : 0 ≡ nb_tx = ground arith in
        rw p (subst (λ n. IsTx cksum g lcore_id conf n s) (omega arith) tx)
  ]

  publish_due-IsTx :
      (total cur_tsc : ℕ) (s : TxState) (stats : WorkerStats)
      → IsTx cksum g lcore_id conf total s
      → IsTx cksum g lcore_id conf total (publish_due cksum g lcore_id conf cur_tsc s stats).0
  unfolding publish_due
  publish_due-IsTx total cur_tsc s stats tx =
      elim (Bool-cases (ltb (sub64 cur_tsc s.last_tsc) (g.timer_hz / 10))) [
        | inl p ↦ rw p tx
        | inr p ↦ rw p (record { pkts = tx.pkts; bytes = tx.bytes; port = tx.port })
      ]

  publish_due-SameRx :
      (cur_tsc : ℕ) (s : TxState) (stats : WorkerStats)
      → SameRx stats (publish_due cksum g lcore_id conf cur_tsc s stats).1
  unfolding publish_due
  publish_due-SameRx cur_tsc s stats =
      elim (Bool-cases (ltb (sub64 cur_tsc s.last_tsc) (g.timer_hz / 10))) [
        | inl p ↦ rw p (refl, refl, refl)
        | inr p ↦ rw p (refl, refl, refl)
      ]

  tx_round-AreNumbered :
      (total : ℕ) (input : TxInput) (s : TxState) (stats : WorkerStats)
      → IsTxInput g input
      → IsTx cksum g lcore_id conf total s
      → (sent : List (List ℕ)) × (s' : TxState) × (stats' : WorkerStats) × (tx_round cksum g
            lcore_id conf input s stats
          ≡ some (sent, (s', stats')))
        × AreNumbered cksum g lcore_id conf total sent
        × IsTx cksum g lcore_id conf (total + length sent) s'
        × SameRx stats stats'
  unfolding tx_round
  tx_round-AreNumbered total input s stats (inl none_left) tx = (
    [],
    s,
    stats,
    rw none_left refl,
    tt,
    subst (λ n. IsTx cksum g lcore_id conf n s) (omega arith) tx,
    (refl, refl, refl),
  )
  tx_round-AreNumbered total input s stats (inr (buffers, given, full, few, sized)) tx =
      let (frames, s1, e, tx1, numbered, len) =
        build_frames-AreNumbered cksum g lcore_id conf six known payload total 0 s buffers tx
          sized in
      let taken = length-take input.nb_tx frames (omega arith) in
      let s2 = count_sent cksum g lcore_id conf s1 input.nb_tx in
      let tx2 =
        publish_due-IsTx _ input.cur_tsc s2 stats (count_sent-IsTx total input.nb_tx s1 few tx1) in
      (
        take input.nb_tx frames,
        (publish_due cksum g lcore_id conf input.cur_tsc s2 stats).0,
        (publish_due cksum g lcore_id conf input.cur_tsc s2 stats).1,
        rw (given, e) refl,
        take-AreNumbered cksum g lcore_id conf input.nb_tx total frames
            (subst (λ n. AreNumbered cksum g lcore_id conf n frames) (omega arith) numbered),
        rw taken tx2,
        publish_due-SameRx input.cur_tsc s2 stats,
      )

  tx_rounds-AreNumbered :
      (inputs : List TxInput) (total : ℕ) (s : TxState) (stats : WorkerStats)
      → All (IsTxInput g) inputs
      → IsTx cksum g lcore_id conf total s
      → (sent : List (List ℕ)) × (s' : TxState) × (stats' : WorkerStats) × (tx_rounds cksum g
            lcore_id conf inputs s stats
          ≡ some (sent, (s', stats')))
        × AreNumbered cksum g lcore_id conf total sent
        × Shows g (total + length sent) stats stats'
  unfolding tx_rounds
  tx_rounds-AreNumbered [] total s stats h tx = (
    [],
    s,
    publish_tx cksum g lcore_id conf s stats,
    refl,
    tt,
    record {
      tx_pkts = omega (arith, tx.pkts);
      tx_bytes =
          subst (λ n. s.local_bytes ≡ u64 (n * (frame_len g + wire_overhead))) (omega arith)
            tx.bytes;
      rest = (refl, refl, refl);
    },
  )
  tx_rounds-AreNumbered (input ∷ inputs) total s stats h tx =
      let (sent, s1, stats1, e, numbered, tx1, same) =
        tx_round-AreNumbered total input s stats h.0 tx in
      let (more, s2, stats2, e2, numbered2, shows) =
        tx_rounds-AreNumbered inputs (total + length sent) s1 stats1 h.1 tx1 in
      (
        sent ++ more,
        s2,
        stats2,
        rw (e, e2) refl,
        append-AreNumbered cksum g lcore_id conf total sent more numbered numbered2,
        rw length-append (
            subst (λ n. Shows g n stats stats2) (omega arith)
              (record {
                tx_pkts = shows.tx_pkts;
                tx_bytes = shows.tx_bytes;
                rest = (shows.rest.0 ∙ same.0, shows.rest.1 ∙ same.1, shows.rest.2 ∙ same.2);
              })),
      )

  -- Whatever the pool and the device do in each round, that is, yield 64 buffers of the length of
  -- a frame or none, and take some of the 64 frames: `tx_worker_loop` of a core below 128, with a
  -- payload size that the options leave, stores nothing behind a buffer. The frames that the device took over carry the packet ids 0, 1, 2
  -- and so on, in order, with no gap, up to the wrap-around at 64 bits, and the first port of the
  -- core; and at the end the statistics show their number and their bytes on the wire, and are
  -- otherwise as before.
  pub tx_worker_loop-AreNumbered :
      (inputs : List TxInput) (tsc : ℕ) (stats : WorkerStats)
      → All (IsTxInput g) inputs
      → (sent : List (List ℕ)) × (s' : TxState) × (stats' : WorkerStats) × (tx_worker_loop cksum g
            lcore_id conf inputs tsc stats
          ≡ some (sent, (s', stats')))
        × AreNumbered cksum g lcore_id conf 0 sent
        × Shows g (length sent) stats stats'
  unfolding tx_worker_loop
  tx_worker_loop-AreNumbered inputs tsc stats h =
      let (sent, s', stats', e, numbered, shows) =
        tx_rounds-AreNumbered inputs 0 _ stats h
          (record { pkts = refl; bytes = omega arith; port = refl }) in
      (sent, s', stats', e, numbered, subst (λ n. Shows g n stats stats') (omega arith) shows)
