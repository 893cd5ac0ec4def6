-- ===== src/Tests/Generator.antt =====
-- pktgen/pktgen.c: two cores that send, one that receives, and five workers on two ports.
use net_blast.Base.{
  ℕ, zero, suc, ◌/◌, ◌^◌, ◌<◌, ◌≡◌, ◌↔◌, inl, inr, refl, arith, List, [], ◌∷◌, length, some, none,
  replicate, All, get_or, bit_and,
}
use net_blast.Fnv.{fnv_1}
use net_blast.PacketTool.{flowhash}
use net_blast.PacketTool.Flow.{flow_key}
use net_blast.Pktgen.{CoreType, LcoreConf, WorkerStats, Globals}
use net_blast.Pktgen.Transmit.{TxState, TxInput, frame_head, first_port, tx_worker_loop}
use net_blast.Pktgen.Transmit.Flows.{IsMask, IsOf, flows_of_clients}
use net_blast.Pktgen.Transmit.Bursts.{AreNumbered, IsTxInput}
use net_blast.Pktgen.Transmit.Totals.{Shows, tx_worker_loop-AreNumbered}
use net_blast.Pktgen.Receive.{RxState, RxInput, rx_worker_loop}
use net_blast.Pktgen.Receive.Frames.{IsArrived, IsRxInput, received, all_delays}
use net_blast.Pktgen.Receive.Loopback.{ShowsRx, rx_worker_loop-ShowsRx}
use net_blast.Pktgen.Roles.{Roles, assign_roles, setup_queues, total_tx_queues}
use net_blast.Pktgen.Roles.Steps.{queues_of, AreWorkers}
use net_blast.Pktgen.Roles.Queues.{count_from, assign_roles-AreWorkers}
use net_blast.Tests.Setup.{are_bytes-AreBytes, byte-lt}

abbrev cksum : List ℕ → ℕ
cksum header = length header

abbrev options : Globals
options = record { ip_mask = 255; payload_size = 20; timer_hz = 100 }

abbrev conf : LcoreConf
conf = record {
  type = CoreType.tx;
  port_id = 0;
  queue_id = 0;
  port_mac = 2 ∷ 0 ∷ 0 ∷ 0 ∷ 0 ∷ 1 ∷ [];
}

mask : IsMask 255
mask = record { exponent = 8; small = omega arith; power = refl }

-- the frame of a core for a client, at the time stamp 1000
abbrev frame : ℕ → ℕ → List ℕ
frame lcore_id counter = frame_head cksum options lcore_id conf counter (first_port lcore_id) 7 1000

abbrev first_frame : List ℕ
first_frame = frame 3 1

abbrev second_frame : List ℕ
second_frame = frame 4 260

first-IsOf : IsOf cksum options 3 conf 1 first_frame
unfolding frame_head replicate
first-IsOf = record {
  packet_id = 7;
  timestamp = 1000;
  six = refl;
  built = record { enough = omega arith; start = refl };
  bytes = byte-lt first_frame (are_bytes-AreBytes first_frame refl);
}

second-IsOf : IsOf cksum options 4 conf 260 second_frame
unfolding frame_head replicate
second-IsOf = record {
  packet_id = 7;
  timestamp = 1000;
  six = refl;
  built = record { enough = omega arith; start = refl };
  bytes = byte-lt second_frame (are_bytes-AreBytes second_frame refl);
}

abbrev core : ℕ
core = 3

abbrev other_core : ℕ
other_core = 4

flows_of_clients_example :
    (flowhash first_frame ≡ some (fnv_1 (flow_key first_frame)))
    × ((flow_key first_frame ≡ flow_key second_frame)
        ↔ ((core ≡ other_core) × (bit_and 1 255 ≡ bit_and 260 255)))
flows_of_clients_example =
    flows_of_clients cksum options mask (omega arith) (omega arith) first-IsOf second-IsOf

abbrev no_stats : WorkerStats
no_stats = record { tx_pkts = 0; tx_bytes = 0; rx_pkts = 0; rx_bytes = 0; total_latency_cycles = 0 }

abbrev buffers : List (List ℕ × ℕ)
buffers = replicate 64 (replicate 62 0, 1000)

-- a round in which the pool is empty, and one in which the device takes three frames
abbrev rounds : List TxInput
rounds =
    record { buffers = none; nb_tx = 0; cur_tsc = 0 }
    ∷ record { buffers = some buffers; nb_tx = 3; cur_tsc = 2000 }
    ∷ []

All-replicate : {A : Type 0} (P : A → Type 0) (n : ℕ) (a : A) → P a → All P (replicate n a)
unfolding replicate
All-replicate P zero a h = tt
All-replicate P (suc n) a h = (h, All-replicate P n a h)

rounds-IsTxInput : All (IsTxInput options) rounds
unfolding replicate
rounds-IsTxInput = (
  inl refl,
  (
    inr (
      buffers,
      refl,
      refl,
      omega arith,
      All-replicate (λ (b : List ℕ × ℕ). length b.0 ≡ 62) 64 (replicate 62 0, 1000) refl,
    ),
    tt,
  ),
)

tx_worker_loop-AreNumbered_example :
    (sent : List (List ℕ)) × (s' : TxState) × (stats' : WorkerStats) × (tx_worker_loop cksum options
        3 conf rounds 0 no_stats
      ≡ some (sent, (s', stats')))
    × AreNumbered cksum options 3 conf 0 sent
    × Shows options (length sent) no_stats stats'
tx_worker_loop-AreNumbered_example =
    tx_worker_loop-AreNumbered cksum options 3 conf refl (omega arith) (omega arith, omega arith)
      rounds 0 no_stats rounds-IsTxInput

abbrev arrivals : List RxInput
arrivals =
    record {
      bufs =
          record { memory = first_frame; pkt_len = 62 }
          ∷ record { memory = second_frame; pkt_len = 62 }
          ∷ [];
      rx_tsc = 1500;
      cur_tsc = 1600;
    }
    ∷ []

arrived :
    (lcore_id counter : ℕ) (memory : List ℕ) (of : IsOf cksum options lcore_id conf counter memory)
    → of.timestamp < 2 ^ 64
    → IsArrived cksum options (record { memory = memory; pkt_len = 62 })
arrived lcore_id counter memory of word = record {
  lcore_id = lcore_id;
  conf = conf;
  counter = counter;
  port = first_port lcore_id;
  packet_id = of.packet_id;
  sent_at = of.timestamp;
  six = refl;
  word = word;
  built = of.built;
  whole = refl;
}

arrivals-IsRxInput : All (IsRxInput cksum options) arrivals
unfolding first-IsOf second-IsOf
arrivals-IsRxInput = (
  (
    (
      arrived 3 1 first_frame first-IsOf (omega arith),
      (arrived 4 260 second_frame second-IsOf (omega arith), tt),
    ),
    omega arith,
  ),
  tt,
)

rx_worker_loop-ShowsRx_example :
    (s' : RxState) × (stats' : WorkerStats) × (rx_worker_loop options arrivals 0 no_stats
      ≡ some (s', stats'))
    × ShowsRx cksum options
        (received cksum options arrivals)
        (all_delays cksum options arrivals arrivals-IsRxInput)
        no_stats
        stats'
rx_worker_loop-ShowsRx_example =
    rx_worker_loop-ShowsRx cksum options arrivals arrivals-IsRxInput 0 no_stats
      (omega arith, omega arith)

abbrev mac : ℕ → List ℕ
mac portid = 2 ∷ 0 ∷ 0 ∷ 0 ∷ 0 ∷ portid ∷ []

assign_roles-AreWorkers_example :
    (confs : List LcoreConf) × (s' : Roles) × (assign_roles 32 mac 2 5 ≡ some (confs, s'))
    × AreWorkers 32 mac 2 5 0 confs
    × (length confs ≡ 5)
    × ((type : CoreType) (p : ℕ)
        → setup_queues type p confs ≡ count_from 0 (get_or (queues_of type s') p 0))
    × (total_tx_queues 2 0 s'.tx_queues_per_port ≡ some (5 / 2))
assign_roles-AreWorkers_example =
    assign_roles-AreWorkers 32 mac 2 5 (omega arith) (omega arith) (omega arith) (omega arith)
      (omega arith)
