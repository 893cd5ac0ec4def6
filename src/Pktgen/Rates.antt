-- ===== src/Pktgen/Rates.antt =====
-- The loop of the generator's main core: what happened in the last second, from the counters of the
-- worker cores and of the ports.
pub mod Telescope
pub mod Counters
use net_blast.Base.{
  ℕ, ◌+◌, List, [], ◌∷◌, get_elem?, set, replicate, ◌>>=◌, Option, none, some, u64, sub64,
}
use net_blast.Pktgen.{WorkerStats}

-- the fields of `struct rte_eth_stats` that are read
pub record HwStats : Type 0 where
  pub imissed : ℕ
  pub ierrors : ℕ
  pub rx_nombuf : ℕ
  pub oerrors : ℕ

-- `tot += (c - prev)`
abbrev pub add_delta : ℕ → ℕ → ℕ → ℕ
add_delta tot c prev = u64 (tot + sub64 c prev)

-- what one core adds to the totals of the second
abbrev pub add_worker : WorkerStats → WorkerStats → WorkerStats → WorkerStats
add_worker tot c prev = record {
  tx_pkts = add_delta tot.tx_pkts c.tx_pkts prev.tx_pkts;
  tx_bytes = add_delta tot.tx_bytes c.tx_bytes prev.tx_bytes;
  rx_pkts = add_delta tot.rx_pkts c.rx_pkts prev.rx_pkts;
  rx_bytes = add_delta tot.rx_bytes c.rx_bytes prev.rx_bytes;
  total_latency_cycles =
      add_delta tot.total_latency_cycles c.total_latency_cycles prev.total_latency_cycles;
}

-- what one port adds
abbrev pub add_port : HwStats → HwStats → HwStats → HwStats
add_port tot c prev = record {
  imissed = add_delta tot.imissed c.imissed prev.imissed;
  ierrors = add_delta tot.ierrors c.ierrors prev.ierrors;
  rx_nombuf = add_delta tot.rx_nombuf c.rx_nombuf prev.rx_nombuf;
  oerrors = add_delta tot.oerrors c.oerrors prev.oerrors;
}

-- The loops over the cores and over the ports: each reading of the counters at an index is added to
-- the totals and kept for the next second. A reading of `none` is a port that has no queues or whose
-- counters rte_eth_stats_get does not give. `none` as a result is an index out of range.
unfoldable pub accumulate :
    {A : Type 0} → (A → A → A → A) → List (ℕ × Option A) → A → List A → Option (A × List A)
accumulate add [] tot prev = some (tot, prev)
accumulate add ((i, none) ∷ readings) tot prev = accumulate add readings tot prev
accumulate add ((i, some c) ∷ readings) tot prev =
    get_elem? prev i >>= λ p. accumulate add readings (add tot c p) (set prev i c)

-- The totals of the seconds in order, and the array of the last counters.
unfoldable pub seconds :
    {A : Type 0}
    → (A → A → A → A)
    → A
    → List (List (ℕ × Option A))
    → List A
    → Option (List A × List A)
seconds add zero [] prev = some ([], prev)
seconds add zero (readings ∷ rest) prev = accumulate add readings zero prev >>= λ r.
    seconds add zero rest r.1 >>= λ q. some (r.0 ∷ q.0, q.1)
