-- ===== src/Dramblast/FindQueue.antt =====
-- l2fwd/libsashstore/dramblast.c: the ring of pending lookups of one core, `dramblast_get_queue_sz`,
-- `dramblast_push_queue` and `dramblast_pop_queue`. They are given the queue that `&ht->queues[id]`
-- points to.
pub mod Fifo
use net_blast.Base.{ℕ, ◌+◌, get_elem?, set, Option, some, ◌>>=◌, bit_and, u32, sub32}
use net_blast.Dramblast.{Item, Queue}

unfoldable pub get_queue_sz : Queue → ℕ
get_queue_sz q = bit_and (sub32 q.head q.tail) (sub32 q.size 1)

-- A write out of range would change nothing here; `Fifo.IsQueue` rules it out.
unfoldable pub push_queue : Queue → Item → Queue
push_queue q item = record q {
  find_queue = set q.find_queue q.head item;
  head = bit_and (u32 (q.head + 1)) (sub32 q.size 1);
}

-- The pointer that the code returns is read before the slot is written again: `Fifo` shows that
-- no push reaches the slot that was just popped.
unfoldable pub pop_queue : Queue → Option (Item × Queue)
pop_queue q = get_elem? q.find_queue q.tail >>= λ item.
    some (item, record q { tail = bit_and (u32 (q.tail + 1)) (sub32 q.size 1) })
