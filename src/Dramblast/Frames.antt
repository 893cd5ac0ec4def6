-- ===== src/Dramblast/Frames.antt =====
-- l2fwd/libsashstore/dramblast.c: `dramblast_process_frames`, which looks up the flow hashes of a
-- burst and tracks the new ones.
pub mod Spec
pub mod Settle
pub mod Loop
pub mod Answers
use net_blast.Base.{
  ℕ, ◌%◌, ◌==◌, ltb, List, [], ◌∷◌, length, get_elem?, set, ◌>>=◌, Option, none, some,
  if◌then◌else◌, pos, negsuc,
}
use net_blast.Conshash.{LookUpTable, table_size}
use net_blast.Dramblast.{found, absent, table_full, Result, Arg, Ht}
use net_blast.Dramblast.Insert.{dramblast_insert_one}
use net_blast.Dramblast.Find.{find_batch_sync}

-- `ret[i] = mac`; `none` is a write out of range
unfoldable pub write_mac : List ℕ → ℕ → ℕ → Option (List ℕ)
write_mac ret i mac = if ltb i (length ret) then some (set ret i mac) else none

module _ (crc : ℕ → ℕ) (backends : LookUpTable) (args : List Arg) where
  -- the branch for DRAMBLAST_ABSENT: `backend_mac_addr` and the table
  unfoldable pub map_flow : Ht → ℕ → Option (ℕ × Ht)
  map_flow ht id = get_elem? args id >>= λ arg.
      get_elem? backends (arg.k % table_size) >>= λ backend.
      dramblast_insert_one crc ht arg.k backend >>= λ r. elim r.0 [
        | pos _ ↦ some (backend, r.1)
        | negsuc _ ↦ some (0, r.1)
      ]

  -- the three branches of the loop over the results
  unfoldable pub settle : Ht → Result → Option (ℕ × Ht)
  settle ht result = elim result.status [
    | absent ↦ map_flow ht result.id
    | table_full ↦ some (0, ht)
    | found ↦ some (result.v, ht)
  ]

  -- the loop over the results: the table and the array `ret`
  unfoldable pub settle_all : List Result → Ht → List ℕ → Option (Ht × List ℕ)
  settle_all [] ht ret = some (ht, ret)
  settle_all (result ∷ results) ht ret =
      settle ht result >>= λ s. write_mac ret result.id s.0 >>= λ ret'. settle_all results s.1 ret'

-- `none` is an access out of range, or the `exit(-1)` for a wrong number of results.
unfoldable pub dramblast_process_frames :
    (ℕ → ℕ) → LookUpTable → Ht → List Arg → List ℕ → ℕ → Option (Ht × List ℕ)
dramblast_process_frames crc backends ht args ret id = find_batch_sync crc ht args id >>= λ batch.
    if length batch.1 == length args then settle_all crc backends args batch.1 batch.0 ret else none
