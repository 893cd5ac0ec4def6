-- ===== src/Dramblast/Concurrent/Calls.antt =====
-- What is known of a call between its steps, and that no step of another core makes it false.
use net_blast.Base.{ℕ, ◌+◌, ◌<◌, ◌≡◌, ◌≢◌, ◌⊎◌, inl, inr, ◌∙◌, List, pos, negsuc, nat_eq}
use net_blast.Probe.{Layout, spot}
use net_blast.WordTable.{Pair, slots, layout}
use net_blast.WordTable.Insertion.{IsFull}
use net_blast.Dramblast.{dramblast_hash}
use net_blast.Dramblast.Concurrent.{Call, Core}

-- Pairs that were claimed keep their keys.
abbrev pub Extends : List Pair → List Pair → Type 0
Extends table table' =
    (s : ℕ) → (slots table s).key ≢ 0 → (slots table' s).key ≡ (slots table s).key

module _ (crc : ℕ → ℕ) (len : ℕ) where
  abbrev pub L : Layout ℕ
  L = layout len (dramblast_hash crc len)

  -- The call has passed `d` pairs, all of other keys, and is at the next one.
  pub record AtProbe (table : List Pair) (c : Call) (d : ℕ) : Type 0 where
    pub proper : c.k ≢ 0
    pub bound : d < len
    pub idx : c.idx ≡ spot L c.k d
    pub passed :
        (j : ℕ)
        → j < d
        → ((slots table (spot L c.k j)).key ≢ 0) × ((slots table (spot L c.k j)).key ≢ c.k)

  -- It has counted that pair.
  abbrev pub AtCounted : List Pair → Call → Type 0
  AtCounted table c = (d : ℕ) × (c.count ≡ d + 1) × AtProbe table c d

  abbrev pub IsCore : List Pair → Core → Type 0
  IsCore table (Core.loading c) = AtProbe table c c.count
  IsCore table (Core.claiming c) = AtCounted table c
  IsCore table (Core.checking c) = AtCounted table c × ((slots table c.idx).key ≢ 0)
  IsCore table (Core.storing c) = AtCounted table c × ((slots table c.idx).key ≡ c.k)
  IsCore table (Core.returned c (pos n)) =
      (n ≡ 0) × (c.k ≢ 0) × ((s : ℕ) × (s < len) × ((slots table s).key ≡ c.k))
  IsCore table (Core.returned c (negsuc n)) =
      (n ≡ 0) × ((c.k ≡ 0) ⊎ IsFull len (dramblast_hash crc len) table c.k)

  module _ (table table' : List Pair) (ext : Extends table table') where
    kept_key :
        (k s : ℕ)
        → ((slots table s).key ≢ 0) × ((slots table s).key ≢ k)
        → ((slots table' s).key ≢ 0) × ((slots table' s).key ≢ k)
    kept_key k s (used, other) = let e = ext s used in (rw e used, rw e other)

    AtProbe-Extends : {c : Call} {d : ℕ} → AtProbe table c d → AtProbe table' c d
    AtProbe-Extends {c} at = record {
      proper = at.proper;
      bound = at.bound;
      idx = at.idx;
      passed = λ j h. kept_key c.k (spot L c.k j) (at.passed j h);
    }

    pub IsCore-Extends : (core : Core) → IsCore table core → IsCore table' core
    IsCore-Extends (Core.loading c) h = AtProbe-Extends h
    IsCore-Extends (Core.claiming c) (d, e, at) = (d, e, AtProbe-Extends at)
    IsCore-Extends (Core.checking c) ((d, e, at), used) =
        ((d, e, AtProbe-Extends at), rw (ext c.idx used) used)
    IsCore-Extends (Core.storing c) ((d, e, at), same) =
        ((d, e, AtProbe-Extends at), ext c.idx (rw same at.proper) ∙ same)
    IsCore-Extends (Core.returned c (pos n)) (zeroed, ne, (s, inside, same)) =
        (zeroed, ne, (s, inside, ext s (rw same ne) ∙ same))
    IsCore-Extends (Core.returned c (negsuc n)) (one, inl z) = (one, inl z)
    IsCore-Extends (Core.returned c (negsuc n)) (one, inr full) =
        (one, inr (λ s h. kept_key c.k s (full s h)))
