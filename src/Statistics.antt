-- ===== src/Statistics.antt =====
-- l2fwd/main.c: the sums over the cores, and the figures of `print_stats`. What the device counts, and
-- the throughput, a floating-point number, are left out.
pub mod Sums
use net_blast.Base.{
  ℕ, ◌+◌, ◌/◌, ◌^◌, ◌==◌, ltb, List, [], ◌∷◌, Option, none, some, true, false, if◌then◌else◌,
  bit_and, u64, sub64,
}
use net_blast.L2fwd.{PortStatistics}

-- `memset(agg, 0, sizeof(*agg))`, and the statistics before the first burst
abbrev pub no_statistics : PortStatistics
no_statistics = record {
  tx = 0;
  rx = 0;
  rx_cnt = 0;
  fwded = 0;
  unmapped = 0;
  rx_dropped = 0;
  tx_dropped = 0;
  hash_tsc = 0;
}

-- the body of the loop of `get_aggregated_stats`; `rx_dropped` is not summed
unfoldable pub add_statistics : PortStatistics → PortStatistics → PortStatistics
add_statistics agg s = record agg {
  tx = u64 (agg.tx + s.tx);
  rx = u64 (agg.rx + s.rx);
  unmapped = u64 (agg.unmapped + s.unmapped);
  hash_tsc = u64 (agg.hash_tsc + s.hash_tsc);
  fwded = u64 (agg.fwded + s.fwded);
  tx_dropped = u64 (agg.tx_dropped + s.tx_dropped);
  rx_cnt = u64 (agg.rx_cnt + s.rx_cnt);
}

-- The loop, over `port_statistics[portid]`, which has an entry for each core.
unfoldable pub aggregate : PortStatistics → List PortStatistics → PortStatistics
aggregate agg [] = agg
aggregate agg (s ∷ cores) = aggregate (add_statistics agg s) cores

unfoldable pub get_aggregated_stats : List PortStatistics → PortStatistics
get_aggregated_stats cores = aggregate no_statistics cores

-- "Average rx batch sz", if it is printed
unfoldable pub average_batch : PortStatistics → PortStatistics → Option ℕ
average_batch prev_agg agg =
    if ltb 0 (sub64 agg.rx_cnt prev_agg.rx_cnt)
    then some (sub64 agg.rx prev_agg.rx / sub64 agg.rx_cnt prev_agg.rx_cnt)
    else none

-- what is printed for a port
pub record Report : Type 0 where
  pub portid : ℕ
  pub agg : PortStatistics
  pub average : Option ℕ

-- `total_packets_fwded`, `total_hash_duration` and `prev_agg`
pub record Progress : Type 0 where
  pub total_packets_fwded : ℕ
  pub total_hash_duration : ℕ
  pub prev_agg : PortStatistics

-- the body of the loop of `print_stats`, for an enabled port
unfoldable pub add_port : PortStatistics → Progress → Progress
add_port agg t = record {
  total_packets_fwded = u64 (t.total_packets_fwded + agg.fwded);
  total_hash_duration = u64 (t.total_hash_duration + agg.hash_tsc);
  prev_agg = agg;
}

-- The loop, from the port `portid` on.
unfoldable pub print_ports : ℕ → ℕ → List (List PortStatistics) → Progress → List Report × Progress
print_ports mask portid [] t = ([], t)
print_ports mask portid (cores ∷ ports) t =
    let agg = get_aggregated_stats cores in
    let report : Report = record {
      portid = portid;
      agg = agg;
      average = average_batch t.prev_agg agg;
    } in
    elim (bit_and mask (2 ^ portid) == 0) [
      | true ↦ print_ports mask (portid + 1) ports t
      | false ↦
          let rest = print_ports mask (portid + 1) ports (add_port agg t) in
          (report ∷ rest.0, rest.1)
    ]

-- "Cycle per fwd packet", if it is printed
unfoldable pub cycles_per_packet : Progress → Option ℕ
cycles_per_packet t =
    if ltb 0 t.total_packets_fwded
    then some (t.total_hash_duration / t.total_packets_fwded)
    else none
