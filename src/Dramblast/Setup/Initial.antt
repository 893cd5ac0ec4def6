-- ===== src/Dramblast/Setup/Initial.antt =====
-- The state that `dramblast_init` sets up is one in which lookups may start.
use net_blast.Base.{
  ℕ, zero, suc, ◌+◌, ◌*◌, ◌/◌, ◌<◌, ◌≤◌, ◌≡◌, ◌≢◌, inl, inr, refl, arith, List, length, get_elem?,
  Option, none, some, take, length-take, get_or-take_same, fill_array, length-fill_array, u64,
  nat_eq, ◌∙◌, ap, [],
}
use native.Mathlib.Nat.{add-zero, zero-add}
use net_blast.Capacity.{IsCapacity}
use net_blast.Capacity.Mask.{capacity_bounds}
use net_blast.WordTable.{Pair, zero_pair}
use net_blast.WordTable.Zeroed.{zeroed-IsTable, zeroed-contents, fill_array-zero}
use net_blast.Conshash.{LookUpTable, table_size, populate_lut}
use net_blast.Conshash.Fill.{populate_lut-backend}
use net_blast.Dramblast.{Item, Queue, Ht, find_queue_size, dramblast_hash}
use net_blast.Dramblast.Insert.Laws.{IsStore, binds}
use net_blast.Dramblast.FindQueue.Fifo.{IsQueue, items}
use net_blast.Dramblast.Setup.{
  max_cpu, init_queue, init_queues, get_aligned_table_size, allocate_dramblast_table,
  dramblast_init,
}
use net_blast.Dramblast.Setup.Sizes.{get_aligned_table_size_lem}

init_queues-queue :
    (buffers : ℕ → List Item) (n i j : ℕ)
    → j < n
    → get_elem? (init_queues buffers n i) j ≡ some (init_queue (buffers (i + j)))
unfolding init_queues
init_queues-queue buffers zero i j h = absurd (omega arith)
init_queues-queue buffers (suc n) i zero h = rw add-zero refl
init_queues-queue buffers (suc n) i (suc j) h =
    let shift : i + 1 + j ≡ i + suc j = omega arith in
    rw (← shift) (init_queues-queue buffers n (i + 1) j (omega arith))

init_queue-IsQueue :
    (buffer : List Item)
    → length buffer ≡ find_queue_size
    → IsQueue (init_queue buffer) × (items (init_queue buffer) ≡ [])
unfolding items
init_queue-IsQueue buffer h =
    (record { size = refl; storage = h; head_in = omega arith; tail_in = omega arith }, refl)

-- What `dramblast_init` has set up for the given number of pairs: an empty table in order, and
-- valid empty queues.
pub record IsInitial (crc : ℕ → ℕ) (capacity : ℕ) (ht : Ht) : Type 0 where
  pub store : IsStore crc ht
  pub len : ht.len ≡ capacity
  pub empty : (q : ℕ) → q ≢ 0 → binds crc ht q ≡ none
  pub queues :
      (id : ℕ)
      → id < max_cpu
      → (q : Queue) × (get_elem? ht.queues id ≡ some q) × IsQueue q × (items q ≡ [])

-- `dramblast_init` with a capacity that main.c accepts, where mmap returns a mapping of the size that
-- it is asked for and each queue has a buffer of its size, succeeds. The table is in order and binds
-- nothing, whatever the memory held, the queue of each core is valid and empty, and the table of
-- backends keeps its length.
pub dramblast_init-IsInitial :
    (crc : ℕ → ℕ) (mmap : ℕ → Option (List Pair)) (buffers : ℕ → List Item) {capacity : ℕ}
    → IsCapacity capacity
    → (backends : LookUpTable) → length backends ≡ table_size
    → ((size : ℕ) → (memory : List Pair) × (mmap size ≡ some memory) × (length memory ≡ size / 16))
    → ((i : ℕ) → length (buffers i) ≡ find_queue_size)
    → (ht : Ht) × (backends' : LookUpTable) × (dramblast_init mmap buffers capacity backends
        ≡ some (ht, backends'))
      × IsInitial crc capacity ht
      × (length backends' ≡ table_size)
unfolding dramblast_init allocate_dramblast_table
dramblast_init-IsInitial crc mmap buffers {capacity} valid backends entries mapped sized =
    let b = capacity_bounds valid in
    let bytes = u64 (capacity * 16) in
    let aligned = get_aligned_table_size bytes in
    let (memory, e, enough) = mapped aligned in
    let zeroed = fill_array (aligned / 16) 0 zero_pair memory in
    let zero = fill_array-zero (aligned / 16) memory enough in
    let long : capacity ≤ length zeroed = elim (get_aligned_table_size_lem bytes (omega arith)) [
      | inl (_, _, l, _) ↦ omega (arith, length-fill_array (aligned / 16) 0 zero_pair memory)
      | inr (_, _, l, _) ↦ omega (arith, length-fill_array (aligned / 16) 0 zero_pair memory)
    ] in
    let same = length-take capacity zeroed long in
    let empty = get_or-take_same capacity zeroed zero_pair zero in
    (
      record {
        table = take capacity zeroed;
        len = capacity;
        queues = init_queues buffers max_cpu 0;
      },
      populate_lut backends,
      rw e refl,
      record {
        store = record {
          capacity = valid;
          table = zeroed-IsTable capacity (dramblast_hash crc capacity) _ same empty;
        };
        len = refl;
        empty =
            λ q q_ne. zeroed-contents capacity (dramblast_hash crc capacity) _ same empty q q_ne;
        queues = λ id h.
            let (v, em) = init_queue-IsQueue (buffers id) (sized id) in
            (
              init_queue (buffers id),
              init_queues-queue buffers max_cpu 0 id h
                  ∙ ap some (ap init_queue (ap buffers (zero-add id))),
              v,
              em,
            );
      },
      (populate_lut-backend backends 0 entries).0,
    )
