-- ===== src/Conshash.antt =====
-- l2fwd/libsashstore/conshash.c and conshash.h: the table of backends. `populate_lut` returns behind
-- its first loop, which gives every entry the same value; what stands behind that return is never
-- run, and is not modelled.
pub mod Fill
use net_blast.Base.{ℕ, List, fill_array}

abbrev pub table_size : ℕ
table_size = 65537

-- `LookUpTable`: int64_t entries, as the bit patterns that they are read as
abbrev pub LookUpTable : Type 0
LookUpTable = List ℕ

unfoldable pub populate_lut : LookUpTable → LookUpTable
populate_lut lut = fill_array table_size 0 0xff lut
