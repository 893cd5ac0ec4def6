-- ===== src/Tests/Lookups.antt =====
-- The find queue and `dramblast_find_batch_sync`.
use mathlib.Core.List.{Perm}
use net_blast.Base.{
  ◌≡◌, ◌≢◌, ◌<◌, refl, arith, List, [], ◌∷◌, ◌++◌, map, some, replicate, length-replicate, set,
}
use net_blast.Dramblast.{Arg, Item, Queue, Ht, Result}
use net_blast.Dramblast.FindQueue.{get_queue_sz, push_queue, pop_queue}
use net_blast.Dramblast.FindQueue.Fifo.{IsQueue, items, push_queue-items, pop_queue-items}
use net_blast.Dramblast.Find.{find_batch_sync}
use net_blast.Dramblast.Find.Spec.{answer_to}
use net_blast.Dramblast.Find.Answers.{IsBatch, find_batch-answers}
use net_blast.Tests.Setup.{crc, eight, fresh, fresh-IsTable}

abbrev pub blank : Item
blank = record { k = 0; idx = 0; visit_count = 0; id = 0 }

abbrev lookup_13 : Item
lookup_13 = record { k = 13; idx = 4; visit_count = 0; id = 1 }

abbrev pub idle : Queue
idle = record { find_queue = replicate 64 blank; head = 63; tail = 63; size = 64 }

idle-IsQueue : IsQueue idle
idle-IsQueue = record {
  size = refl;
  storage = length-replicate 64 blank;
  head_in = omega arith;
  tail_in = omega arith;
}

items-idle : items idle ≡ []
unfolding items
items-idle = refl

room : get_queue_sz idle < 63
unfolding get_queue_sz
room = omega arith

push_queue-items_example :
    IsQueue (push_queue idle lookup_13)
    × (items (push_queue idle lookup_13) ≡ items idle ++ lookup_13 ∷ [])
push_queue-items_example = push_queue-items idle-IsQueue lookup_13 room

-- one item, in the last slot of the ring
abbrev busy : Queue
busy = record { find_queue = set (replicate 64 blank) 63 lookup_13; head = 0; tail = 63; size = 64 }

busy-IsQueue : IsQueue busy
unfolding replicate
busy-IsQueue = record { size = refl; storage = refl; head_in = omega arith; tail_in = omega arith }

items-busy : items busy ≡ lookup_13 ∷ []
unfolding items replicate
items-busy = refl

pop_queue-items_example :
    (q' : Queue) × (pop_queue busy ≡ some (lookup_13, q'))
    × IsQueue q'
    × (items q' ≡ [])
    × (q'.head ≢ 63)
pop_queue-items_example = pop_queue-items busy-IsQueue items-busy

abbrev pub ht : Ht
ht = record { table = fresh; len = 8; queues = idle ∷ [] }

abbrev pub args : List Arg
args = record { k = 13; id = 0 } ∷ record { k = 6; id = 1 } ∷ []

pub args-IsBatch : IsBatch crc ht args 0 idle
args-IsBatch = record {
  store = record { capacity = eight; table = fresh-IsTable _ };
  roomy = omega arith;
  own = refl;
  queue = idle-IsQueue;
  idle = items-idle;
  keys = omega arith;
}

find_batch-answers_example :
    (q' : Queue) × (results : List Result) × (find_batch_sync crc ht args 0
      ≡ some (record ht { queues = set ht.queues 0 q' }, results))
    × IsQueue q'
    × (items q' ≡ [])
    × Perm results (map (answer_to crc ht.table 8) args)
find_batch-answers_example = find_batch-answers crc ht args 0 args-IsBatch
