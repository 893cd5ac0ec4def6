-- ===== src/Dramblast/Find/Spec.antt =====
-- What a lookup in a table in order has to answer, said of the map that the table stands for.
use net_blast.Base.{ℕ, ◌-◌, ◌==◌, Bool, Option, none, some, first, nat_eq, List}
use net_blast.Probe.{Layout, spot}
use net_blast.WordTable.{Pair, slots, layout, contents}
use net_blast.Dramblast.{Status, found, absent, table_full, Result, Arg, dramblast_hash}

module _ (crc : ℕ → ℕ) (table : List Pair) (len : ℕ) where
  abbrev pub L : Layout ℕ
  L = layout len (dramblast_hash crc len)

  -- whether the probe number `i` for the key `k` meets an empty pair
  abbrev pub is_gap : ℕ → ℕ → Bool
  is_gap k i = (slots table (spot L k i)).key == 0

  -- An absent key is reported as such only if an empty pair stands before the last bucket of its
  -- probe sequence; else the lookup gives up.
  abbrev pub miss_status : Option ℕ → Status
  miss_status (some i) = absent
  miss_status none = table_full

  abbrev pub reply : ℕ → ℕ → Option ℕ → Result
  reply k id (some v) = record { v = v; id = id; status = found }
  reply k id none = record { v = 0; id = id; status = miss_status (first (is_gap k) (len - 4) 0) }

  -- the answer to the argument with the key `k` and the given id
  unfoldable pub answer : ℕ → ℕ → Result
  answer k id = reply k id (contents len (dramblast_hash crc len) table k)

  abbrev pub answer_to : Arg → Result
  answer_to arg = answer arg.k arg.id
