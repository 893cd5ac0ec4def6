-- ===== src/Lcores.antt =====
-- l2fwd/main.c: how `main` distributes the queues of the enabled ports over the worker cores. The
-- configuration of a core is the list of the (port, queue) pairs in its `rx_port_list`; its length is
-- `n_rx_port`.
pub mod Queues
pub mod Spread
use net_blast.Base.{
  ℕ, zero, suc, ◌+◌, ◌-◌, ◌^◌, ◌==◌, leb, not, ◌||◌, Bool, true, false, List, [], ◌∷◌, ◌++◌, length,
  get_elem?, set, ◌>>=◌, Option, none, some, bit_and, if◌then◌else◌,
}

-- MAX_RX_QUEUE_PER_LCORE
abbrev pub max_rx_queue_per_lcore : ℕ
max_rx_queue_per_lcore = 16

abbrev pub Confs : Type 0
Confs = List (List (ℕ × ℕ))

-- `max_lcore` is RTE_MAX_LCORE; `is_enabled` and `main_lcore` are what DPDK says of the cores.
module _ (max_lcore : ℕ) (is_enabled : ℕ → Bool) (main_lcore : ℕ) where
  -- the condition of the loop that looks for a core; `none` is an access out of range
  unfoldable pub is_skipped : Confs → ℕ → Option Bool
  is_skipped confs rx =
      if not (is_enabled rx) || rx == main_lcore
      then some true
      else get_elem? confs rx >>= λ queues. some (length queues == max_rx_queue_per_lcore)

  -- That loop. `none` is the call of rte_exit for too few cores, or that the fuel ran out.
  unfoldable pub next_lcore : ℕ → Confs → ℕ → Option ℕ
  next_lcore zero confs rx = none
  next_lcore (suc fuel) confs rx =
      let later = next_lcore fuel confs (rx + 1) in
      is_skipped confs rx >>= λ skipped.
      if skipped then (if leb max_lcore (rx + 1) then none else later) else some rx

  -- One queue: the configurations, and the core from which the search for the next queue starts.
  unfoldable pub assign_queue : ℕ → ℕ → Confs × ℕ → Option (Confs × ℕ)
  assign_queue port queue state = next_lcore (max_lcore + 1) state.0 state.1 >>= λ rx.
      get_elem? state.0 rx >>= λ queues.
      some (set state.0 rx (queues ++ (port, queue) ∷ []), rx + 1)

  -- the loop over the queues of a port, with `n` left from the queue `q` on
  unfoldable pub assign_port : ℕ → ℕ → ℕ → Confs × ℕ → Option (Confs × ℕ)
  assign_port port zero q state = some state
  assign_port port (suc n) q state =
      assign_queue port q state >>= λ next. assign_port port n (q + 1) next

  -- the loop over the ports
  unfoldable pub assign_ports : ℕ → ℕ → List ℕ → Confs × ℕ → Option (Confs × ℕ)
  assign_ports mask queues_per_port [] state = some state
  assign_ports mask queues_per_port (port ∷ ports) state = elim (bit_and mask (2 ^ port) == 0) [
    | true ↦ assign_ports mask queues_per_port ports state
    | false ↦ assign_port port queues_per_port 0 state >>= λ next.
        assign_ports mask queues_per_port ports next
  ]
