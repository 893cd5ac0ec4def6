-- ===== src/Pktgen/Roles.antt =====
-- `main` of the generator: which worker core sends or receives, on which queue of which port, and
-- what DPDK is told to set up.
pub mod Steps
pub mod Senders
pub mod Queues
use net_blast.Base.{
  ℕ, zero, suc, ◌+◌, ◌*◌, ◌/◌, ◌%◌, Bool, ◌&&◌, List, [], ◌∷◌, ◌++◌, length, get_elem?, set,
  replicate, ◌>>=◌, Option, none, some, if◌then◌else◌, ltb, ◌==◌, u16, u32, u64,
}
use net_blast.Pktgen.{CoreType, LcoreConf, Globals}

-- the local variables of the loop over the workers
pub record Roles : Type 0 where
  pub tx_queues_per_port : List ℕ
  pub rx_queues_per_port : List ℕ
  pub port_rr : ℕ
  pub worker_idx : ℕ

-- `++` on an entry of an array: the value before it, and the array
unfoldable pub post_increment : List ℕ → ℕ → Option (ℕ × List ℕ)
post_increment xs i = get_elem? xs i >>= λ n. some (n, set xs i (u16 (n + 1)))

-- `queue_id = tx_queues_per_port[port_rr]++`, or the same with the queues to receive from
unfoldable pub take_queue : CoreType → ℕ → Roles → Option (ℕ × Roles)
take_queue CoreType.tx portid s = post_increment s.tx_queues_per_port portid >>= λ r.
    some (r.0, record s { tx_queues_per_port = r.1 })
take_queue CoreType.rx portid s = post_increment s.rx_queues_per_port portid >>= λ r.
    some (r.0, record s { rx_queues_per_port = r.1 })

-- RTE_MAX_ETHPORTS, the address of a port, and how many ports and worker cores there are, are
-- DPDK's.
module _ (max_ethports : ℕ) (mac : ℕ → List ℕ) (nb_ports nb_workers : ℕ) where
  -- the role of a worker by its index: the first half sends, the second receives
  abbrev pub role_of : ℕ → CoreType
  role_of worker_idx = if ltb worker_idx (nb_workers / 2) then CoreType.tx else CoreType.rx

  -- one round of the loop: the configuration of the worker. `none` is an index out of range.
  unfoldable pub assign_worker : Roles → Option (LcoreConf × Roles)
  assign_worker s = take_queue (role_of s.worker_idx) s.port_rr s >>= λ r. some (
    record {
      type = role_of s.worker_idx;
      port_id = s.port_rr;
      queue_id = r.0;
      port_mac = mac s.port_rr;
    },
    record r.1 { port_rr = u16 ((s.port_rr + 1) % nb_ports); worker_idx = u32 (s.worker_idx + 1) },
  )

  -- the loop over `n` workers: their configurations in order, and the variables
  unfoldable pub assign_workers : ℕ → Roles → Option (List LcoreConf × Roles)
  assign_workers zero s = some ([], s)
  assign_workers (suc n) s =
      assign_worker s >>= λ r. assign_workers n r.1 >>= λ q. some (r.0 ∷ q.0, q.1)

  -- the variables at the start
  abbrev pub no_queues : Roles
  no_queues = record {
    tx_queues_per_port = replicate max_ethports 0;
    rx_queues_per_port = replicate max_ethports 0;
    port_rr = 0;
    worker_idx = 0;
  }

  -- The loop from its start. `main` ends the process if there is no port, or fewer than two workers.
  unfoldable pub assign_roles : Option (List LcoreConf × Roles)
  assign_roles =
      if nb_ports == 0
      then none
      else if ltb nb_workers 2
      then none
      else assign_workers nb_workers no_queues

abbrev pub same_type : CoreType → CoreType → Bool
same_type CoreType.tx CoreType.tx = Bool.true
same_type CoreType.tx CoreType.rx = Bool.false
same_type CoreType.rx CoreType.tx = Bool.false
same_type CoreType.rx CoreType.rx = Bool.true

-- The queues that the loops behind "Setup RX Queues" and "Setup TX Queues" set up for a port.
unfoldable pub setup_queues : CoreType → ℕ → List LcoreConf → List ℕ
setup_queues type portid [] = []
setup_queues type portid (conf ∷ confs) =
    let rest = setup_queues type portid confs in
    if conf.port_id == portid && same_type conf.type type then conf.queue_id ∷ rest else rest

-- `total_tx_queues`, over the `n` ports from `portid` on
unfoldable pub total_tx_queues : ℕ → ℕ → List ℕ → Option ℕ
total_tx_queues zero portid queues = some 0
total_tx_queues (suc n) portid queues = get_elem? queues portid >>= λ q.
    total_tx_queues n (portid + 1) queues >>= λ rest. some (q + rest)
