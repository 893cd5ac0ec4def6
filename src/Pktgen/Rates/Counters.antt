-- ===== src/Pktgen/Rates/Counters.antt =====
-- The counters of the worker cores and of the ports.
use net_blast.Base.{refl}
use net_blast.Pktgen.{WorkerStats}
use net_blast.Pktgen.Rates.{HwStats, add_worker, add_port}
use net_blast.Pktgen.Rates.Telescope.{Counter}

abbrev pub tx_pkts_counter : Counter WorkerStats add_worker
tx_pkts_counter = record { read = λ s. s.tx_pkts; adds = λ tot c prev. refl }

abbrev pub tx_bytes_counter : Counter WorkerStats add_worker
tx_bytes_counter = record { read = λ s. s.tx_bytes; adds = λ tot c prev. refl }

abbrev pub rx_pkts_counter : Counter WorkerStats add_worker
rx_pkts_counter = record { read = λ s. s.rx_pkts; adds = λ tot c prev. refl }

abbrev pub rx_bytes_counter : Counter WorkerStats add_worker
rx_bytes_counter = record { read = λ s. s.rx_bytes; adds = λ tot c prev. refl }

abbrev pub latency_counter : Counter WorkerStats add_worker
latency_counter = record { read = λ s. s.total_latency_cycles; adds = λ tot c prev. refl }

abbrev pub imissed_counter : Counter HwStats add_port
imissed_counter = record { read = λ s. s.imissed; adds = λ tot c prev. refl }

abbrev pub ierrors_counter : Counter HwStats add_port
ierrors_counter = record { read = λ s. s.ierrors; adds = λ tot c prev. refl }

abbrev pub rx_nombuf_counter : Counter HwStats add_port
rx_nombuf_counter = record { read = λ s. s.rx_nombuf; adds = λ tot c prev. refl }

abbrev pub oerrors_counter : Counter HwStats add_port
oerrors_counter = record { read = λ s. s.oerrors; adds = λ tot c prev. refl }
