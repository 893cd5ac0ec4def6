-- ===== src/Pktgen/Receive.antt =====
-- `rx_worker_loop`: what a receiving core counts.
pub mod Frames
pub mod Loopback
use net_blast.Base.{
  ℕ, zero, suc, ◌+◌, ◌-◌, ◌*◌, ◌/◌, ◌%◌, ◌^◌, List, [], ◌∷◌, length, get_elem?, ◌>>=◌, Option, none,
  some, if◌then◌else◌, ltb, u32, u64, sub64, ◌==◌, same_list, nat_eq,
}
use net_blast.Buffer.{bytes_at}
use net_blast.Pktgen.{WorkerStats, Globals, headers_size, timestamp_at, wire_overhead}
use net_blast.Pktgen.Transmit.{be16}

-- a received `struct rte_mbuf`: the memory from the frame's first byte on, and its length
pub record Mbuf : Type 0 where
  pub memory : List ℕ
  pub pkt_len : ℕ

-- the local variables of the loop that change
pub record RxState : Type 0 where
  pub local_pkts : ℕ
  pub local_bytes : ℕ
  pub local_latency_cycles : ℕ
  pub last_tsc : ℕ

-- What DPDK and the processor do in one round: the frames that rte_eth_rx_burst yields, and the
-- time stamps read behind it and at the end.
pub record RxInput : Type 0 where
  pub bufs : List Mbuf
  pub rx_tsc : ℕ
  pub cur_tsc : ℕ

-- the word that lies in memory as these bytes
abbrev pub word_of : List ℕ → ℕ
word_of [] = 0
word_of (b ∷ bytes) = b + 256 * word_of bytes

-- `local_latency_cycles` after a UDP frame with the given time stamp
abbrev pub add_latency : ℕ → ℕ → ℕ → ℕ
add_latency rx_tsc tx_timestamp cycles =
    if ltb tx_timestamp rx_tsc then u64 (cycles + sub64 rx_tsc tx_timestamp) else cycles

-- The cycles after the frame in `memory`; `none` is a read behind the memory.
unfoldable pub latency : ℕ → List ℕ → ℕ → Option ℕ
latency rx_tsc memory cycles = bytes_at memory 12 2 >>= λ ether_type.
    if same_list ether_type (be16 0x0800)
    then (get_elem? memory 23 >>= λ proto.
        if proto == 17
        then (bytes_at memory timestamp_at 8 >>= λ stamp.
            some (add_latency rx_tsc (word_of stamp) cycles))
        else some cycles)
    else some cycles

-- the inner loop
unfoldable pub rx_frames : ℕ → RxState → List Mbuf → Option RxState
rx_frames rx_tsc s [] = some s
rx_frames rx_tsc s (m ∷ bufs) = latency rx_tsc m.memory s.local_latency_cycles >>= λ cycles.
    rx_frames rx_tsc
      (record s {
        local_bytes = u64 (s.local_bytes + u32 (m.pkt_len + wire_overhead));
        local_latency_cycles = cycles;
      })
      bufs

-- what the core shows to the main core in `g_stats`
abbrev pub publish_rx : RxState → WorkerStats → WorkerStats
publish_rx s stats = record stats {
  rx_pkts = s.local_pkts;
  rx_bytes = s.local_bytes;
  total_latency_cycles = s.local_latency_cycles;
}

module _ (g : Globals) where
  -- the end of a round: the counters are shown once in a tenth of a second
  unfoldable pub show_due : ℕ → RxState → WorkerStats → RxState × WorkerStats
  show_due cur_tsc s stats =
      if ltb (sub64 cur_tsc s.last_tsc) (g.timer_hz / 10)
      then (s, stats)
      else (record s { last_tsc = cur_tsc }, publish_rx s stats)

  -- one round of the outer loop
  unfoldable pub rx_round : RxInput → RxState → WorkerStats → Option (RxState × WorkerStats)
  rx_round input s stats =
      if length input.bufs == 0
      then some (s, stats)
      else (rx_frames input.rx_tsc s input.bufs >>= λ s1. some (
          show_due input.cur_tsc
            (record s1 { local_pkts = u64 (s1.local_pkts + length input.bufs) }) stats))

  -- the loop until `force_quit`, and the stores behind it
  unfoldable pub rx_rounds : List RxInput → RxState → WorkerStats → Option (RxState × WorkerStats)
  rx_rounds [] s stats = some (s, publish_rx s stats)
  rx_rounds (input ∷ inputs) s stats = rx_round input s stats >>= λ r. rx_rounds inputs r.0 r.1

  -- `rx_worker_loop`, started at the time stamp `tsc`
  unfoldable pub rx_worker_loop : List RxInput → ℕ → WorkerStats → Option (RxState × WorkerStats)
  rx_worker_loop inputs tsc stats =
      rx_rounds inputs
        (record { local_pkts = 0; local_bytes = 0; local_latency_cycles = 0; last_tsc = tsc }) stats
