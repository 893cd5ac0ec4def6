-- ===== src/Statistics/Sums.antt =====
-- What the printed figures have to do with the counters of the cores.
use net_blast.Base.{
  ℕ, ◌+◌, ◌%◌, ◌^◌, ◌≡◌, refl, sym, subst, arith, Bool-cases, inl, inr, List, [], ◌∷◌, All, ◌==◌,
  bit_and, true, false, u64,
}
use net_blast.L2fwd.{PortStatistics}
use net_blast.L2fwd.Burst.{Accounts}
use net_blast.Statistics.{
  no_statistics, add_statistics, aggregate, get_aggregated_stats, Report, Progress, add_port,
  print_ports, average_batch,
}

-- Received frames were forwarded or unmapped, and were sent or dropped, up to the wrap at 64 bits.
pub record IsBalanced (s : PortStatistics) : Type 0 where
  pub looked_up : (s.fwded + s.unmapped) % 2 ^ 64 ≡ s.rx % 2 ^ 64
  pub handed_on : (s.tx + s.tx_dropped) % 2 ^ 64 ≡ s.rx % 2 ^ 64

-- The statistics of a core that started at zero and has counted bursts, as `process_burst` does.
pub data IsCounted : PortStatistics → Type 0 where
  at_start : IsCounted no_statistics
  after_burst :
      (n nb_tx f cycles : ℕ) (s s' : PortStatistics)
      → IsCounted s
      → Accounts n nb_tx f cycles s s'
      → IsCounted s'

IsCounted-IsBalanced : (s : PortStatistics) → IsCounted s → IsBalanced s
IsCounted-IsBalanced s at_start = record { looked_up = refl; handed_on = refl }
IsCounted-IsBalanced _ (after_burst n nb_tx f cycles s s' counted a) =
    let b = IsCounted-IsBalanced s counted in
    record {
      looked_up = omega (arith, b.looked_up, a.few, a.fwded, a.unmapped, a.rx);
      handed_on = omega (arith, b.handed_on, a.most, a.tx, a.tx_dropped, a.rx);
    }

add-IsBalanced :
    (agg s : PortStatistics) → IsBalanced agg → IsBalanced s → IsBalanced (add_statistics agg s)
unfolding add_statistics
add-IsBalanced agg s a b = record {
  looked_up = omega (arith, a.looked_up, b.looked_up);
  handed_on = omega (arith, a.handed_on, b.handed_on);
}

aggregate-IsBalanced :
    (agg : PortStatistics) (cores : List PortStatistics)
    → IsBalanced agg
    → All IsCounted cores
    → IsBalanced (aggregate agg cores)
unfolding aggregate
aggregate-IsBalanced agg [] b h = b
aggregate-IsBalanced agg (s ∷ cores) b h =
    aggregate-IsBalanced (add_statistics agg s) cores
      (add-IsBalanced agg s b (IsCounted-IsBalanced s h.0)) h.1

module _ (mask portid : ℕ) (cores : List PortStatistics) (ports : List (List PortStatistics))
    (t : Progress) where
  -- a port that is not enabled
  print_ports-skips :
      bit_and mask (2 ^ portid) == 0 ≡ true
      → print_ports mask portid (cores ∷ ports) t ≡ print_ports mask (portid + 1) ports t
  unfolding print_ports
  print_ports-skips p = rw (print_ports, p) refl

  print_ports-prints :
      bit_and mask (2 ^ portid) == 0 ≡ false
      → (report : Report) × (report.agg ≡ get_aggregated_stats cores)
        × ((print_ports mask portid (cores ∷ ports) t).0
            ≡ report
              ∷ (print_ports mask (portid + 1) ports (add_port (get_aggregated_stats cores) t)).0)
        × ((print_ports mask portid (cores ∷ ports) t).1
            ≡ (print_ports mask (portid + 1) ports (add_port (get_aggregated_stats cores) t)).1)
  unfolding print_ports
  print_ports-prints p = (
    record {
      portid = portid;
      agg = get_aggregated_stats cores;
      average = average_batch t.prev_agg (get_aggregated_stats cores);
    },
    refl,
    rw (print_ports, p) refl,
    rw (print_ports, p) refl,
  )

-- On statistics that the cores have counted, what is printed for each port adds up: the packets
-- received are those forwarded and those unmapped, and also those sent and those dropped, up to the
-- wrap at 64 bits.
pub print_ports-AreBalanced :
    (mask portid : ℕ) (ports : List (List PortStatistics)) (t : Progress)
    → All (All IsCounted) ports
    → All (λ (r : Report). IsBalanced r.agg) ((print_ports mask portid ports t).0)
unfolding get_aggregated_stats print_ports
print_ports-AreBalanced mask portid [] t h = tt
print_ports-AreBalanced mask portid (cores ∷ ports) t h =
    elim (Bool-cases (bit_and mask (2 ^ portid) == 0)) [
      | inl p ↦
          rw (print_ports-skips mask portid cores ports t p)
            (print_ports-AreBalanced mask (portid + 1) ports t h.1)
      | inr p ↦
          let (report, same, list, _) = print_ports-prints mask portid cores ports t p in
          let here =
            aggregate-IsBalanced no_statistics cores (IsCounted-IsBalanced no_statistics at_start)
              h.0 in
          let rest =
            print_ports-AreBalanced mask (portid + 1) ports
              (add_port (get_aggregated_stats cores) t) h.1 in
          rw list (subst IsBalanced (sym same) here, rest)
    ]

-- the sum of `fwded` over the cores
abbrev pub forwarded : List PortStatistics → ℕ
forwarded [] = 0
forwarded (s ∷ cores) = s.fwded + forwarded cores

-- its sum over the enabled ports
abbrev pub all_forwarded : ℕ → ℕ → List (List PortStatistics) → ℕ
all_forwarded mask portid [] = 0
all_forwarded mask portid (cores ∷ ports) =
    (elim (bit_and mask (2 ^ portid) == 0) [ true ↦ 0 | false ↦ forwarded cores ])
    + all_forwarded mask (portid + 1) ports

aggregate-fwded :
    (agg : PortStatistics) (cores : List PortStatistics)
    → (aggregate agg cores).fwded % 2 ^ 64 ≡ u64 (agg.fwded + forwarded cores)
unfolding aggregate add_statistics
aggregate-fwded agg [] = omega arith
aggregate-fwded agg (s ∷ cores) =
    let rest = aggregate-fwded (add_statistics agg s) cores in omega (arith, rest)

-- The total of the packets forwarded, from which the throughput and the cycles per packet are
-- computed, is the sum over all cores of the enabled ports, up to the wrap at 64 bits, added to the
-- total so far.
pub print_ports-total :
    (mask portid : ℕ) (ports : List (List PortStatistics)) (t : Progress)
    → (print_ports mask portid ports t).1.total_packets_fwded % 2 ^ 64
      ≡ u64 (t.total_packets_fwded + all_forwarded mask portid ports)
unfolding get_aggregated_stats add_port print_ports
print_ports-total mask portid [] t = omega arith
print_ports-total mask portid (cores ∷ ports) t =
    elim (Bool-cases (bit_and mask (2 ^ portid) == 0)) [
      | inl p ↦
          let rest = print_ports-total mask (portid + 1) ports t in
          rw (print_ports-skips mask portid cores ports t p, p) (omega (arith, rest))
      | inr p ↦
          let rest =
            print_ports-total mask (portid + 1) ports (add_port (get_aggregated_stats cores) t) in
          let here = aggregate-fwded no_statistics cores in
          let (_, _, _, progress) = print_ports-prints mask portid cores ports t p in
          rw (progress, p) (omega (arith, rest, here))
    ]
