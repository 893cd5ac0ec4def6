-- ===== src/Dramblast/Setup.antt =====
-- l2fwd/libsashstore/dramblast.c: `dramblast_init`, with the sizes of what it allocates.
pub mod Sizes
pub mod Initial
use net_blast.Base.{
  ℕ, zero, suc, ◌+◌, ◌-◌, ◌*◌, ◌/◌, ◌^◌, ltb, List, [], ◌∷◌, take, fill_array, ◌>>=◌, Option, none,
  some, if◌then◌else◌, bit_and, u64, sub64,
}
use net_blast.WordTable.{Pair, zero_pair}
use net_blast.Conshash.{LookUpTable, populate_lut}
use net_blast.Dramblast.{Item, Queue, Ht, find_queue_size}

-- MAX_CPU
abbrev pub max_cpu : ℕ
max_cpu = 128

-- PAGE_SIZE_2MB
abbrev pub page_size_2mb : ℕ
page_size_2mb = 2 * 1024 * 1024

-- PAGE_SIZE_1GB
abbrev pub page_size_1gb : ℕ
page_size_1gb = 1024 * 1024 * 1024

-- `~x` on 64 bits
abbrev pub complement : ℕ → ℕ
complement x = 2 ^ 64 - 1 - x

-- ALIGN_UP
abbrev pub align_up : ℕ → ℕ → ℕ
align_up x align = bit_and (sub64 (u64 (x + align)) 1) (complement (align - 1))

unfoldable pub get_aligned_table_size : ℕ → ℕ
get_aligned_table_size bytes =
    if ltb page_size_1gb bytes then align_up bytes page_size_1gb else align_up bytes page_size_2mb

-- the size that `dramblast_alloc64` passes to aligned_alloc
unfoldable pub alloc64_size : ℕ → ℕ
alloc64_size bytes = bit_and (u64 (bytes + 63)) (complement 63)

-- The memory that `mmap` returns for a size, as pairs of 16 bytes; `none` is MAP_FAILED. It is set to
-- zero by the call of memset.
unfoldable pub allocate_dramblast_table : (ℕ → Option (List Pair)) → ℕ → Option (List Pair)
allocate_dramblast_table mmap bytes =
    let aligned_bytes = get_aligned_table_size bytes in
    mmap aligned_bytes >>= λ memory. some (fill_array (aligned_bytes / 16) 0 zero_pair memory)

-- a queue on the buffer that was allocated for it
abbrev pub init_queue : List Item → Queue
init_queue buffer = record { find_queue = buffer; head = 0; tail = 0; size = find_queue_size }

-- the loop over the queues, from the queue `i` on with `n` left; `buffers` are the allocations
unfoldable pub init_queues : (ℕ → List Item) → ℕ → ℕ → List Queue
init_queues buffers zero i = []
init_queues buffers (suc n) i = init_queue (buffers i) ∷ init_queues buffers n (i + 1)

-- The table and the backends. `none` is the `exit(1)` for a table that was not allocated. The
-- table is the part of the mapping that `len` pairs fill.
unfoldable pub dramblast_init :
    (ℕ → Option (List Pair)) → (ℕ → List Item) → ℕ → LookUpTable → Option (Ht × LookUpTable)
dramblast_init mmap buffers capacity backends =
    allocate_dramblast_table mmap (u64 (capacity * 16)) >>= λ memory. some (
      record {
        table = take capacity memory;
        len = capacity;
        queues = init_queues buffers max_cpu 0;
      },
      populate_lut backends,
    )
