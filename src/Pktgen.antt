-- ===== src/Pktgen.antt =====
-- pktgen/pktgen.c: the packet generator. Its worker cores send frames of its own, or receive them
-- and measure how long they were under way.
pub mod Transmit
pub mod Receive
pub mod Roles
pub mod Rates
pub mod Command
use net_blast.Base.{ℕ, ◌+◌, List}

-- `enum core_type`
pub data CoreType : Type 0 where
  tx : CoreType
  rx : CoreType

-- `struct lcore_conf`, but for the pool of buffers
pub record LcoreConf : Type 0 where
  pub type : CoreType
  pub port_id : ℕ
  pub queue_id : ℕ
  pub port_mac : List ℕ

-- `struct worker_stats`
pub record WorkerStats : Type 0 where
  pub tx_pkts : ℕ
  pub tx_bytes : ℕ
  pub rx_pkts : ℕ
  pub rx_bytes : ℕ
  pub total_latency_cycles : ℕ

-- `g_ip_mask` and `g_payload_size`, as the options set them, and `g_timer_hz`
pub record Globals : Type 0 where
  pub ip_mask : ℕ
  pub payload_size : ℕ
  pub timer_hz : ℕ

-- The bytes of the headers of Ethernet, IPv4 and UDP, and what a frame takes on the wire besides.
abbrev pub headers_size : ℕ
headers_size = 14 + 20 + 8

abbrev pub wire_overhead : ℕ
wire_overhead = 24

-- the offsets of `packet_id` and `tx_timestamp` in a frame, and the end of the payload's structure
abbrev pub packet_id_at : ℕ
packet_id_at = headers_size + 4

abbrev pub timestamp_at : ℕ
timestamp_at = packet_id_at + 8

abbrev pub metadata_end : ℕ
metadata_end = timestamp_at + 8

abbrev pub burst_size : ℕ
burst_size = 64
