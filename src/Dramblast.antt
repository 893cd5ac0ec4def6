-- ===== src/Dramblast.antt =====
-- l2fwd/libsashstore/dramblast.h and dramblast.c: the types, and `dramblast_hash`.
-- The children have the find queue, the insertion, the lookup and the frames.
pub mod Hash
pub mod Insert
pub mod Concurrent
pub mod FindQueue
pub mod Lanes
pub mod Find
pub mod Frames
pub mod Setup
use net_blast.Base.{ℕ, ◌-◌, ◌^◌, List, bit_and, u64, sub64}
use net_blast.WordTable.{Pair}

-- the outcomes DRAMBLAST_FOUND, DRAMBLAST_ABSENT and DRAMBLAST_TABLE_FULL
pub data Status : Type 0 where
  found absent table_full : Status

-- `dramblast_result_t`
pub record Result : Type 0 where
  pub v : ℕ
  pub id : ℕ
  pub status : Status

-- `dramblast_arg_t`
pub record Arg : Type 0 where
  pub k : ℕ
  pub id : ℕ

-- `dramblast_queue_item_t`
pub record Item : Type 0 where
  pub k : ℕ
  pub idx : ℕ
  pub visit_count : ℕ
  pub id : ℕ

-- `dramblast_queue_t`
pub record Queue : Type 0 where
  pub find_queue : List Item
  pub head : ℕ
  pub tail : ℕ
  pub size : ℕ

-- `dramblast_ht_t`
pub record Ht : Type 0 where
  pub table : List Pair
  pub len : ℕ
  pub queues : List Queue

-- DRAMBLAST_FIND_QUEUE_SIZE
abbrev pub find_queue_size : ℕ
find_queue_size = 64

-- DRAMBLAST_BUCKET_IDX_MASK, `~0x3`: an int, which `&` with a uint64_t extends by its sign
abbrev pub bucket_idx_mask : ℕ
bucket_idx_mask = 2 ^ 64 - 4

-- `dramblast_hash`, which reads the length of the table only; `crc` is `_mm_crc32_u64(0, k)`.
unfoldable pub dramblast_hash : (ℕ → ℕ) → ℕ → ℕ → ℕ
dramblast_hash crc len k = bit_and (bit_and (u64 (crc k)) (sub64 len 1)) bucket_idx_mask
