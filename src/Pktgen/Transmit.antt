-- ===== src/Pktgen/Transmit.antt =====
-- `tx_worker_loop`: the frames that a core builds, and what it counts.
pub mod Build
pub mod Flows
pub mod Bursts
pub mod Totals
use net_blast.Base.{
  ℕ, zero, suc, ◌+◌, ◌-◌, ◌*◌, ◌/◌, ◌%◌, ◌^◌, List, [], ◌∷◌, ◌++◌, length, replicate, take, ◌>>=◌,
  Option, none, some, if◌then◌else◌, ltb, not, bit_and, u16, u32, u64, sub64,
}
use net_blast.Buffer.{low_bytes, store_bytes}
use net_blast.Pktgen.{Globals, LcoreConf, WorkerStats, headers_size, wire_overhead, burst_size}

-- rte_cpu_to_be_16 and rte_cpu_to_be_32 of a word, as they lie in memory
abbrev pub be16 : ℕ → List ℕ
be16 n = n / 256 % 256 ∷ n % 256 ∷ []

abbrev pub be32 : ℕ → List ℕ
be32 n = n / 2 ^ 24 % 256 ∷ n / 2 ^ 16 % 256 ∷ n / 256 % 256 ∷ n % 256 ∷ []

-- `RTE_IPV4(10, lcore_id, 0, 0)`
abbrev pub base_ip : ℕ → ℕ
base_ip lcore_id = 10 * 2 ^ 24 + lcore_id % 256 * 2 ^ 16

-- `RTE_IPV4(192, 168, 1, 1)`
abbrev pub server_ip : ℕ
server_ip = 192 * 2 ^ 24 + 168 * 2 ^ 16 + 2 ^ 8 + 1

abbrev pub first_port : ℕ → ℕ
first_port lcore_id = u16 (1025 + lcore_id * 100)

-- the local variables of the loop that change
pub record TxState : Type 0 where
  pub client_ip_counter : ℕ
  pub client_port_counter : ℕ
  pub local_pkts : ℕ
  pub local_bytes : ℕ
  pub last_tsc : ℕ

-- What DPDK and the processor do in one round of the loop: the buffers that the pool yields, if it
-- has them, each with its memory and the time stamp read for it, the number of frames that
-- rte_eth_tx_burst takes over, and the time stamp at the end.
pub record TxInput : Type 0 where
  pub buffers : Option (List (List ℕ × ℕ))
  pub nb_tx : ℕ
  pub cur_tsc : ℕ

-- `rte_ipv4_cksum` is DPDK's.
module _ (cksum : List ℕ → ℕ) (g : Globals) (lcore_id : ℕ) (conf : LcoreConf) where
  -- the source address of a frame
  abbrev pub current_ip : ℕ → ℕ
  current_ip counter = u32 (base_ip lcore_id + bit_and counter g.ip_mask)

  abbrev pub eth_header : List ℕ
  eth_header = replicate 6 0xff ++ (conf.port_mac ++ be16 0x0800)

  -- the IPv4 header with the two bytes of the given checksum
  abbrev pub ip_header : ℕ → List ℕ → List ℕ
  ip_header counter checksum =
      (0x45 ∷ 0 ∷ [])
      ++ (be16 (20 + 8 + g.payload_size)
          ++ ((0 ∷ 0 ∷ 0 ∷ 0 ∷ 64 ∷ 17 ∷ [])
              ++ (checksum ++ (be32 (current_ip counter) ++ be32 server_ip))))

  abbrev pub udp_header : ℕ → List ℕ
  udp_header port = be16 port ++ (be16 80 ++ (be16 (8 + g.payload_size) ++ (0 ∷ 0 ∷ [])))

  -- `struct custom_payload`
  abbrev pub metadata : ℕ → ℕ → List ℕ
  metadata packet_id timestamp =
      low_bytes 4 lcore_id ++ (low_bytes 8 packet_id ++ low_bytes 8 timestamp)

  -- The bytes that are written to a buffer: the checksum is computed over the header with zeros in
  -- its place.
  unfoldable pub frame_head : ℕ → ℕ → ℕ → ℕ → List ℕ
  frame_head counter port packet_id timestamp =
      let checksum = low_bytes 2 (cksum (ip_header counter (0 ∷ 0 ∷ []))) in
      eth_header
      ++ (ip_header counter checksum ++ (udp_header port ++ metadata packet_id timestamp))

  -- One round of the inner loop: the frame, and the counter of ports after it. `none` is a store
  -- behind the buffer.
  unfoldable pub build_frame : TxState → ℕ → List ℕ → ℕ → Option (List ℕ × TxState)
  build_frame s i memory timestamp =
      store_bytes memory 0
        (frame_head s.client_ip_counter s.client_port_counter (u64 (s.local_pkts + i)) timestamp)
      >>= λ frame. some (
        frame,
        record s {
          client_ip_counter = u32 (s.client_ip_counter + 1);
          client_port_counter =
              if ltb 65000 s.client_port_counter then 1025 else s.client_port_counter;
        },
      )

  -- the inner loop from the buffer number `i` on
  unfoldable pub build_frames : TxState → ℕ → List (List ℕ × ℕ) → Option (List (List ℕ) × TxState)
  build_frames s i [] = some ([], s)
  build_frames s i (buffer ∷ buffers) = build_frame s i buffer.0 buffer.1 >>= λ r.
      build_frames r.1 (i + 1) buffers >>= λ q. some (r.0 ∷ q.0, q.1)

  -- `wire_len`
  abbrev pub wire_len : ℕ
  wire_len = u32 (headers_size + g.payload_size + wire_overhead)

  -- `if (nb_tx > 0) ...`
  unfoldable pub count_sent : TxState → ℕ → TxState
  count_sent s nb_tx =
      if ltb 0 nb_tx
      then record s {
        local_pkts = u64 (s.local_pkts + nb_tx);
        local_bytes = u64 (s.local_bytes + u32 (nb_tx * wire_len));
      }
      else s

  -- what the core shows to the main core in `g_stats`
  abbrev pub publish_tx : TxState → WorkerStats → WorkerStats
  publish_tx s stats = record stats { tx_pkts = s.local_pkts; tx_bytes = s.local_bytes }

  -- the end of a round: the counters are shown once in a tenth of a second
  unfoldable pub publish_due : ℕ → TxState → WorkerStats → TxState × WorkerStats
  publish_due cur_tsc s stats =
      if ltb (sub64 cur_tsc s.last_tsc) (g.timer_hz / 10)
      then (s, stats)
      else (record s { last_tsc = cur_tsc }, publish_tx s stats)

  -- One round of the outer loop: the frames that the device took over, and the state. The frames
  -- that it did not take are freed.
  unfoldable pub tx_round :
      TxInput → TxState → WorkerStats → Option (List (List ℕ) × (TxState × WorkerStats))
  tx_round input s stats = elim input.buffers [
    | none ↦ some ([], (s, stats))
    | some buffers ↦ build_frames s 0 buffers >>= λ r.
        some (take input.nb_tx r.0, publish_due input.cur_tsc (count_sent r.1 input.nb_tx) stats)
  ]

  -- the loop until `force_quit`, and the stores behind it
  unfoldable pub tx_rounds :
      List TxInput → TxState → WorkerStats → Option (List (List ℕ) × (TxState × WorkerStats))
  tx_rounds [] s stats = some ([], (s, publish_tx s stats))
  tx_rounds (input ∷ inputs) s stats =
      tx_round input s stats >>= λ r. tx_rounds inputs r.1.0 r.1.1 >>= λ q. some (r.0 ++ q.0, q.1)

  -- `tx_worker_loop`, started at the time stamp `tsc`
  unfoldable pub tx_worker_loop :
      List TxInput → ℕ → WorkerStats → Option (List (List ℕ) × (TxState × WorkerStats))
  tx_worker_loop inputs tsc stats =
      tx_rounds inputs
        (record {
          client_ip_counter = 1;
          client_port_counter = first_port lcore_id;
          local_pkts = 0;
          local_bytes = 0;
          last_tsc = tsc;
        })
        stats
