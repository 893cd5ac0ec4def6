-- ===== src/Dramblast/FindQueue/Fifo.antt =====
-- The ring is a first-in first-out queue of at most 63 pending lookups.
use net_blast.Base.{
  ℕ, zero, suc, ◌+◌, ◌-◌, ◌%◌, ◌<◌, ◌≡◌, ◌≢◌, refl, ap, ap₂, ◌∙◌, sym, arith, List, [], ◌∷◌, ◌++◌,
  length, get_or, set, some, bit_and, u32, sub32, bit_and_mask, length-set, get_elem?-eq-get_or,
  get_or-set_self, get_or-set_ne,
}
use net_blast.Dramblast.{Item, Queue, find_queue_size}
use net_blast.Dramblast.FindQueue.{get_queue_sz, push_queue, pop_queue}

pub record IsQueue (q : Queue) : Type 0 where
  pub size : q.size ≡ find_queue_size
  pub storage : length q.find_queue ≡ find_queue_size
  pub head_in : q.head < find_queue_size
  pub tail_in : q.tail < find_queue_size

abbrev no_item : Item
no_item = record { k = 0; idx = 0; visit_count = 0; id = 0 }

-- the `n` items from the index `i` on, going round
abbrev stretch : List Item → ℕ → ℕ → List Item
stretch buf zero i = []
stretch buf (suc n) i = get_or buf (i % 64) no_item ∷ stretch buf n (i + 1)

-- the number of pending items, and the items, oldest first
abbrev pub pending : Queue → ℕ
pending q = (q.head + 64 - q.tail) % 64

unfoldable pub items : Queue → List Item
items q = stretch q.find_queue (pending q) q.tail

mask64 : (x : ℕ) → bit_and x 63 ≡ x % 64
mask64 x = bit_and_mask 6 x

stretch_congr : (buf : List Item) (n i j : ℕ) → i % 64 ≡ j % 64 → stretch buf n i ≡ stretch buf n j
stretch_congr buf zero i j e = refl
stretch_congr buf (suc n) i j e =
    ap₂ ◌∷◌ (ap (λ x. get_or buf x no_item) e) (stretch_congr buf n (i + 1) (j + 1) (omega arith))

length-stretch : (buf : List Item) (n i : ℕ) → length (stretch buf n i) ≡ n
length-stretch buf zero i = refl
length-stretch buf (suc n) i = ap suc (length-stretch buf n (i + 1))

-- A write just past a stretch of fewer than 64 items extends it.
stretch-set :
    (buf : List Item) (x : Item) (n i p : ℕ)
    → length buf ≡ 64
    → n < 64
    → p ≡ (i + n) % 64
    → stretch (set buf p x) (suc n) i ≡ stretch buf n i ++ x ∷ []
stretch-set buf x zero i p len h e =
    let at_p : i % 64 ≡ p = omega arith in rw (at_p, get_or-set_self buf p x no_item (omega arith))
stretch-set buf x (suc n) i p len h e =
    ap₂ ◌∷◌ (get_or-set_ne buf p (i % 64) x no_item (omega arith))
      (stretch-set buf x n (i + 1) p len (omega arith) (omega arith))

pub head_eq : {x y : Item} {xs ys : List Item} → x ∷ xs ≡ y ∷ ys → x ≡ y
head_eq h = cc

pub tail_eq : {x y : Item} {xs ys : List Item} → x ∷ xs ≡ y ∷ ys → xs ≡ ys
tail_eq h = cc

module _ {q : Queue} (valid : IsQueue q) where
  pub pending-get_queue_sz : get_queue_sz q ≡ pending q
  unfolding get_queue_sz
  pending-get_queue_sz = rw (valid.size, mask64) (omega arith)

  after : (x : ℕ) → x < 64 → bit_and (u32 (x + 1)) (sub32 q.size 1) ≡ (x + 1) % 64
  after x h = rw (valid.size, mask64) (omega arith)

  -- `dramblast_get_queue_sz` counts the pending items, of which there are at most 63.
  pub get_queue_sz-items : (get_queue_sz q ≡ length (items q)) × (length (items q) < 64)
  unfolding items
  get_queue_sz-items =
      let n = length-stretch q.find_queue (pending q) q.tail in
      (pending-get_queue_sz ∙ sym n, omega arith)

  -- `dramblast_push_queue` on a queue of fewer than 63 items appends the item.
  pub push_queue-items :
      (x : Item)
      → get_queue_sz q < 63
      → IsQueue (push_queue q x) × (items (push_queue q x) ≡ items q ++ x ∷ [])
  unfolding push_queue items
  push_queue-items x room =
      let few : pending q < 63 = omega (arith, pending-get_queue_sz) in
      let up = after q.head valid.head_in in
      let grown : pending (push_queue q x) ≡ suc (pending q) = rw up (omega arith) in
      (
        record {
          size = valid.size;
          storage = length-set q.find_queue q.head x ∙ valid.storage;
          head_in = rw up (omega arith);
          tail_in = valid.tail_in;
        },
        rw grown (
            stretch-set q.find_queue x (pending q) q.tail q.head valid.storage (omega arith)
              (omega arith)),
      )

  -- `dramblast_pop_queue` on a queue that is not empty returns the oldest item and removes it; the
  -- slot of that item is not the one that the next push writes.
  pub pop_queue-items :
      {x : Item} {xs : List Item}
      → items q ≡ x ∷ xs
      → (q' : Queue) × (pop_queue q ≡ some (x, q'))
        × IsQueue q'
        × (items q' ≡ xs)
        × (q'.head ≢ q.tail)
  unfolding pop_queue items
  pop_queue-items {x} {xs} e =
      let q' : Queue = record q { tail = bit_and (u32 (q.tail + 1)) (sub32 q.size 1) } in
      let up = after q.tail valid.tail_in in
      let n : pending q ≡ suc (length xs) =
        sym (length-stretch q.find_queue (pending q) q.tail) ∙ ap length e in
      let fewer : pending q' ≡ length xs = rw up (omega arith) in
      let parts : stretch q.find_queue (suc (length xs)) q.tail ≡ x ∷ xs = rw n at e in
      let first_item : get_or q.find_queue (q.tail % 64) no_item ≡ x = head_eq parts in
      let same : q.tail % 64 ≡ q.tail = omega arith in
      (
        q',
        rw (get_elem?-eq-get_or q.find_queue q.tail no_item (omega arith))
            (ap (λ y. some (y, q')) (rw same at first_item)),
        record {
          size = valid.size;
          storage = valid.storage;
          head_in = valid.head_in;
          tail_in = rw up (omega arith);
        },
        rw fewer (
            stretch_congr q.find_queue (length xs) q'.tail (q.tail + 1) (rw up (omega arith))
            ∙ tail_eq parts),
        omega arith,
      )
