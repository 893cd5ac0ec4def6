-- ===== src/Tests/Rates.antt =====
-- pktgen/pktgen.c: two seconds of the main core, and the options.
use net_blast.Base.{
  ℕ, ◌+◌, ◌≡◌, ◌⊎◌, refl, arith, List, [], ◌∷◌, Option, some, none, All, length, get_or, u64, pos,
}
use net_blast.Pktgen.{WorkerStats, Globals}
use net_blast.Pktgen.Transmit.Flows.{IsMask}
use net_blast.Pktgen.Transmit.Bursts.{IsPayload}
use net_blast.Pktgen.Rates.{add_worker, seconds}
use net_blast.Pktgen.Rates.Telescope.{sum, last_of_all, seconds-sum}
use net_blast.Pktgen.Rates.Counters.{tx_pkts_counter}
use net_blast.Pktgen.Command.{GenOption, globals_of}
use net_blast.Pktgen.Command.Accepted.{IsAcceptable, globals_of-cases}

abbrev stats : ℕ → WorkerStats
stats n = record { tx_pkts = n; tx_bytes = n; rx_pkts = n; rx_bytes = n; total_latency_cycles = n }

abbrev before : List WorkerStats
before = stats 0 ∷ stats 0 ∷ stats 0 ∷ []

abbrev first_second : List (ℕ × Option WorkerStats)
first_second = (1, some (stats 5)) ∷ (2, some (stats 7)) ∷ []

abbrev last_second : List (ℕ × Option WorkerStats)
last_second = (1, some (stats 9)) ∷ (2, some (stats 8)) ∷ []

seconds-sum_example :
    (totals : List WorkerStats) × (prev' : List WorkerStats) × (seconds add_worker
        (stats 0)
        (first_second ∷ last_second ∷ [])
        before
      ≡ some (totals, prev'))
    × (u64 (sum tx_pkts_counter totals + sum tx_pkts_counter before)
        ≡ u64 (sum tx_pkts_counter prev'))
    × (length prev' ≡ 3)
    × ((d : WorkerStats) (i : ℕ)
        → get_or prev' i d
          ≡ last_of_all tx_pkts_counter i (first_second ∷ last_second ∷ []) (get_or before i d))
seconds-sum_example =
    seconds-sum tx_pkts_counter {start = stats 0} (first_second ∷ last_second ∷ []) before refl
      (omega arith, (omega arith, (omega arith, tt)))
      (
        ((omega arith, omega arith), ((omega arith, omega arith), tt)),
        (((omega arith, omega arith), ((omega arith, omega arith), tt)), tt),
      )

abbrev some_options : List GenOption
some_options = GenOption.range (pos 1024) ∷ GenOption.payload (pos 4) ∷ GenOption.unknown ∷ []

globals_of-cases_example :
    ((g : Globals) × (globals_of 100 some_options ≡ some g)
      × IsMask g.ip_mask
      × IsPayload g
      × All IsAcceptable some_options)
    ⊎ ((globals_of 100 some_options ≡ none) × (¬ All IsAcceptable some_options))
globals_of-cases_example = globals_of-cases 100 some_options (omega arith, (omega arith, (tt, tt)))
