-- ===== src/Pktgen/Receive/Frames.antt =====
-- Frames of sending cores that arrive at a receiving core.
use native.Mathlib.Nat.{add-mul}
use net_blast.Base.{
  ℕ, ◌+◌, ◌-◌, ◌*◌, ◌^◌, ◌≤◌, ◌<◌, ◌≡◌, refl, ap, ◌∙◌, subst, arith, List, [], ◌∷◌, length,
  get_elem?-eq-get_or, some, All, u32, u64, nat_eq,
}
use net_blast.Buffer.{low_bytes}
use net_blast.Buffer.Reads.{byte, bytes_at-slice}
use net_blast.Pktgen.{Globals, LcoreConf, wire_overhead, timestamp_at, metadata_end}
use net_blast.Pktgen.Transmit.Build.{IsBuilt, fields}
use net_blast.Pktgen.Transmit.Bursts.{frame_len, IsPayload}
use net_blast.Pktgen.Receive.{Mbuf, RxState, RxInput, word_of, add_latency, latency, rx_frames}

word_of-low_bytes : (t : ℕ) → t < 2 ^ 64 → word_of (low_bytes 8 t) ≡ t
word_of-low_bytes t h = omega arith

module _ (cksum : List ℕ → ℕ) (g : Globals) where
  -- The frame was built by some core at the time stamp `sent_at`, and arrived whole.
  pub record IsArrived (m : Mbuf) : Type 0 where
    pub lcore_id : ℕ
    pub conf : LcoreConf
    pub counter : ℕ
    pub port : ℕ
    pub packet_id : ℕ
    pub sent_at : ℕ
    pub six : length conf.port_mac ≡ 6
    pub word : sent_at < 2 ^ 64
    pub built : IsBuilt cksum g lcore_id conf counter port packet_id sent_at m.memory
    pub whole : m.pkt_len ≡ frame_len g

  -- how long the frames were under way, where a stamp behind that of the reception counts as 0
  abbrev pub delays : ℕ → (bufs : List Mbuf) → All IsArrived bufs → ℕ
  delays rx_tsc [] h = 0
  delays rx_tsc (m ∷ bufs) h = (rx_tsc - h.0.sent_at) + delays rx_tsc bufs h.1

  -- the frames of a round have arrived
  abbrev pub IsRxInput : RxInput → Type 0
  IsRxInput input = All IsArrived input.bufs × (input.rx_tsc < 2 ^ 64)

  abbrev pub received : List RxInput → ℕ
  received [] = 0
  received (input ∷ inputs) = length input.bufs + received inputs

  abbrev pub all_delays : (inputs : List RxInput) → All IsRxInput inputs → ℕ
  all_delays [] h = 0
  all_delays (input ∷ inputs) h = delays input.rx_tsc input.bufs h.0.0 + all_delays inputs h.1

  -- A frame of the generator adds the time from the stamp that it carries.
  latency-add :
      (m : Mbuf) (a : IsArrived m) (rx_tsc cycles : ℕ)
      → latency rx_tsc m.memory cycles ≡ some (add_latency rx_tsc a.sent_at cycles)
  unfolding latency
  latency-add m a rx_tsc cycles =
      let f = fields cksum g a.lcore_id a.conf a.six a.built in
      let long : metadata_end ≤ length m.memory = a.built.enough in
      rw
        (
          bytes_at-slice m.memory 2 12 (omega arith) ∙ ap some f.ether_type,
          get_elem?-eq-get_or m.memory 23 0 (omega arith)
              ∙ ap (λ xs. some (byte xs 0)) f.next_proto_id,
          bytes_at-slice m.memory 8 timestamp_at (omega arith) ∙ ap some f.tx_timestamp,
        )
        (ap (λ t. some (add_latency rx_tsc t cycles)) (word_of-low_bytes a.sent_at a.word))

  add_latency-delay :
      (rx_tsc sent_at cycles total : ℕ)
      → rx_tsc < 2 ^ 64
      → sent_at < 2 ^ 64
      → cycles ≡ u64 total
      → add_latency rx_tsc sent_at cycles ≡ u64 (total + (rx_tsc - sent_at))
  add_latency-delay rx_tsc sent_at cycles total now word e = ground arith

  -- The counts after `pkts` frames of a total delay of `cycles`.
  pub record IsRx (pkts : ℕ) (cycles : ℕ) (s : RxState) : Type 0 where
    pub bytes : s.local_bytes ≡ u64 (pkts * (frame_len g + wire_overhead))
    pub latency : s.local_latency_cycles ≡ u64 cycles

  pub rx_frames-IsRx :
      (bufs : List Mbuf) (h : All IsArrived bufs) (rx_tsc pkts cycles : ℕ) (s : RxState)
      → IsPayload g
      → rx_tsc < 2 ^ 64
      → IsRx pkts cycles s
      → (s' : RxState) × (rx_frames rx_tsc s bufs ≡ some s')
        × IsRx (pkts + length bufs) (cycles + delays rx_tsc bufs h) s'
        × (s'.local_pkts ≡ s.local_pkts)
  unfolding rx_frames
  rx_frames-IsRx [] h rx_tsc pkts cycles s payload now rx = (
    s,
    refl,
    subst (λ n. IsRx n (cycles + 0) s) (omega arith) (subst (λ n. IsRx pkts n s) (omega arith) rx),
    refl,
  )
  rx_frames-IsRx (m ∷ bufs) h rx_tsc pkts cycles s payload now rx =
      let rx1 : IsRx (pkts + 1) (cycles + (rx_tsc - h.0.sent_at)) (record s {
        local_bytes = u64 (s.local_bytes + u32 (m.pkt_len + wire_overhead));
        local_latency_cycles = add_latency rx_tsc h.0.sent_at s.local_latency_cycles;
      }) =
        record {
          bytes = omega (arith, rx.bytes, h.0.whole, add-mul pkts 1 (frame_len g + wire_overhead));
          latency = add_latency-delay rx_tsc h.0.sent_at _ cycles now h.0.word rx.latency;
        } in
      let (s', e, rx', same) =
        rx_frames-IsRx bufs h.1 rx_tsc (pkts + 1) (cycles + (rx_tsc - h.0.sent_at)) _ payload now
          rx1 in
      (
        s',
        rw (latency-add m h.0 rx_tsc s.local_latency_cycles) e,
        subst (λ n. IsRx n (cycles + delays rx_tsc (m ∷ bufs) h) s') (omega arith)
            (subst (λ n. IsRx (pkts + 1 + length bufs) n s') (omega arith) rx'),
        same,
      )
