-- ===== src/Maglev.antt =====
-- l2fwd/libsashstore/maglev.c: the connection tracking of the mode `maglev`.
pub mod Frames
pub mod Affinity
use net_blast.Base.{
  ℕ, ◌+◌, ◌%◌, ltb, List, get_elem?, fill_array, ◌>>=◌, Option, none, some, if◌then◌else◌, ℤ, pos,
  negsuc,
}
use net_blast.WordTable.{Pair, zero_pair}
use net_blast.Hashmap.{maglev_hashmap_insert, maglev_hashmap_get}
use net_blast.PacketTool.{flowhash}
use net_blast.Conshash.{LookUpTable, table_size, populate_lut}

-- the file's static variables, `maglev_conntrack` and `maglev_lookup`
pub record Maglev : Type 0 where
  pub conntrack : List Pair
  pub lookup : LookUpTable

-- `maglev_init` on the memory that aligned_alloc returned, which holds anything
unfoldable pub maglev_init : ℕ → List Pair → LookUpTable → Maglev
maglev_init capacity memory lut = record {
  conntrack = fill_array capacity 0 zero_pair memory;
  lookup = populate_lut lut;
}

module _ (crc : ℕ → ℕ) (capacity : ℕ) where
  -- the branch for a flow that is not tracked; an insertion that fails is `return 0`
  unfoldable pub track : Maglev → ℕ → Option (ℕ × Maglev)
  track m hash = get_elem? m.lookup (hash % table_size) >>= λ backend.
      maglev_hashmap_insert crc capacity m.conntrack hash backend >>= λ r.
      let after = record m { conntrack = r.1 } in
      elim r.0 [ pos _ ↦ some (backend, after) | negsuc _ ↦ some (0, after) ]

  -- The MAC that the caller writes, where 0 stands for none, and the state. `none` is an access out
  -- of range.
  unfoldable pub maglev_process_frame : Maglev → List ℕ → Option (ℕ × Maglev)
  maglev_process_frame m frame = flowhash frame >>= λ hash.
      if ltb 0 hash
      then (maglev_hashmap_get crc capacity m.conntrack hash >>= λ cached. elim cached [
        | none ↦ track m hash
        | some index ↦ get_elem? m.conntrack index >>= λ pair. some (pair.value, m)
      ])
      else some (0, m)
