-- ===== src/Tests/Statistics.antt =====
-- The figures of two ports of two cores each.
use net_blast.Base.{arith, ℕ, ◌≡◌, refl, List, [], ◌∷◌, Option, some, All}
use net_blast.L2fwd.{PortStatistics}
use net_blast.Statistics.{
  no_statistics, add_statistics, aggregate, get_aggregated_stats, average_batch, Report, Progress,
  add_port, print_ports,
}
use net_blast.Statistics.Sums.{IsBalanced, IsCounted, print_ports-AreBalanced}

abbrev received : ℕ → ℕ → PortStatistics
received n rounds = record no_statistics { rx = n; rx_cnt = rounds; fwded = n; tx = n }

abbrev busy : PortStatistics
busy = received 8 1

busy-IsCounted : IsCounted busy
busy-IsCounted = IsCounted.after_burst 8 8 8 0 no_statistics busy IsCounted.at_start (record {
  most = omega arith;
  few = omega arith;
  tx = refl;
  tx_dropped = refl;
  fwded = refl;
  unmapped = refl;
  rx = refl;
  rx_cnt = refl;
  hash_tsc = refl;
  rx_dropped = refl;
})

abbrev at_first : Progress
at_first = record { total_packets_fwded = 0; total_hash_duration = 0; prev_agg = no_statistics }

abbrev two_ports : List (List PortStatistics)
two_ports = (busy ∷ no_statistics ∷ []) ∷ (busy ∷ busy ∷ []) ∷ []

print_ports-AreBalanced_example :
    All (λ (r : Report). IsBalanced r.agg) ((print_ports 3 0 two_ports at_first).0)
print_ports-AreBalanced_example =
    print_ports-AreBalanced 3 0 two_ports at_first
      ((busy-IsCounted, (IsCounted.at_start, tt)), ((busy-IsCounted, (busy-IsCounted, tt)), tt))

abbrev averages : List Report → List (Option ℕ)
averages [] = []
averages (r ∷ reports) = r.average ∷ averages reports

-- The second port is compared with the first one: its bursts had 3 frames on average, and 6 is
-- printed.
abbrev uneven : List (List PortStatistics)
uneven = (received 10 5 ∷ []) ∷ (received 28 8 ∷ []) ∷ []

mixed : averages ((print_ports 3 0 uneven at_first).0) ≡ some 2 ∷ some 6 ∷ []
unfolding print_ports average_batch get_aggregated_stats aggregate add_statistics add_port
mixed = refl
