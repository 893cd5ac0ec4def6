-- ===== src/Conshash/Fill.antt =====
-- `populate_lut` writes every entry.
use native.Mathlib.Nat.{mod-lt}
use net_blast.Base.{
  Option, none, some, ℕ, ◌%◌, ◌<◌, ◌≡◌, arith, length, get_or, get_or-fill_array, length-fill_array,
}
use net_blast.Conshash.{LookUpTable, table_size, populate_lut}

-- The backend of a flow hash, `lut[hash % TABLE_SIZE]`.
abbrev pub backend : LookUpTable → ℕ → ℕ
backend lut hash = get_or lut (hash % table_size) 0

-- the MAC of a binding, where 0 stands for none
abbrev pub mac_of : Option ℕ → ℕ
mac_of none = 0
mac_of (some v) = v

-- After `populate_lut` on an array of TABLE_SIZE entries every flow has the backend 0xff, and no
-- index is out of range.
pub populate_lut-backend :
    (lut : LookUpTable) (hash : ℕ)
    → length lut ≡ table_size
    → (length (populate_lut lut) ≡ table_size)
      × (hash % table_size < length (populate_lut lut))
      × (backend (populate_lut lut) hash ≡ 0xff)
unfolding populate_lut
populate_lut-backend lut hash h =
    let small : hash % table_size < table_size = mod-lt hash (omega arith) in
    let same = length-fill_array table_size 0 0xff lut in
    (
      omega arith,
      omega arith,
      get_or-fill_array table_size 0 (hash % table_size) 0xff 0 lut (omega arith) (omega arith)
          (omega arith),
    )
