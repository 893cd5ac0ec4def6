-- ===== src/Probe.antt =====
-- Linear probing, as hashmap.c and dramblast.c use it: the slots of a table are visited from the
-- home slot of a key on, going round at the end, up to the first slot that is empty or holds the
-- key. A table is seen here as a function from slot numbers to slots.
pub mod Search
pub mod View
pub mod Write
use net_blast.Base.{
  ℕ, ◌+◌, ◌%◌, ◌<◌, ◌≡◌, ◌≢◌, Bool, ◌||◌, Option, none, some, if◌then◌else◌, Eq, first,
}

-- `struct maglev_kv_pair`, `struct sashstore_kv_pair` and `dramblast_kv_t`: a key beside its value.
pub record Slot (K V : Type 0) : Type 0 where
  pub key : K
  pub value : V

-- What the search depends on: the key of an empty slot, the number of slots, and the home slots.
pub record Layout (K : Type 0) : Type 0 where
  pub vacant : K
  pub size : ℕ
  pub home : K → ℕ

-- the slot of the probe number `i` for the key `k`
abbrev pub spot : {K : Type 0} → Layout K → K → ℕ → ℕ
spot L k i = (L.home k + i) % L.size

module _ {K V : Type 0} ⦃e : Eq K⦄ (L : Layout K) (t : ℕ → Slot K V) where
  -- whether the search for `k` ends at its probe number `i`
  unfoldable pub stops : K → ℕ → Bool
  stops k i = let s = t (spot L k i) in e.same s.key L.vacant || e.same s.key k

  -- the number of the probe that ends the search, if one does
  unfoldable pub locate : K → Option ℕ
  locate k = first (stops k) L.size 0

  -- the value at the end of a search
  unfoldable pub value_at : K → Option ℕ → Option V
  value_at k none = none
  value_at k (some d) = let s = t (spot L k d) in if e.same s.key k then some s.value else none

  -- the map that a table stands for
  unfoldable pub view : K → Option V
  view k = value_at k (locate k)

-- `k` is at its probe number `d`, which is the slot `s`, and no earlier probe ends the search.
pub record IsReached {K V : Type 0} (L : Layout K) (t : ℕ → Slot K V) (k : K) (d s : ℕ)
    : Type 0 where
  pub bound : d < L.size
  pub here : spot L k d ≡ s
  pub before : (i : ℕ) → i < d → ((t (spot L k i)).key ≢ L.vacant) × ((t (spot L k i)).key ≢ k)

-- The invariant of the tables: whatever key a slot holds, the search for it ends at that slot.
abbrev pub IsPlaced : {K V : Type 0} → Layout K → (ℕ → Slot K V) → Type 0
IsPlaced L t = (s : ℕ) → (t s).key ≢ L.vacant → (d : ℕ) × IsReached L t (t s).key d s
