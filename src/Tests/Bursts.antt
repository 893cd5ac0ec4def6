-- ===== src/Tests/Bursts.antt =====
-- Bursts through dramblast.
use net_blast.Base.{
  ◌/◌, ℕ, ◌≡◌, ◌∷◌, [], refl, arith, List, length, length-replicate, replicate, some,
}
use net_blast.Dramblast.{Ht}
use net_blast.Dramblast.Frames.{dramblast_process_frames}
use net_blast.Dramblast.Frames.Answers.{ProcessesBatch, process_frames-ProcessesBatch}
use net_blast.WordTable.{Pair}
use net_blast.Conshash.{LookUpTable}
use net_blast.Dramblast.Setup.{dramblast_init}
use net_blast.Dramblast.Setup.Initial.{IsInitial, dramblast_init-IsInitial}
use net_blast.Tests.Setup.{crc, eight}
use net_blast.Tests.Lookups.{ht, args, args-IsBatch, blank}

process_frames-ProcessesBatch_example :
    (ht' : Ht) × (ret' : List ℕ) × (dramblast_process_frames crc
        (replicate 65537 0xff)
        ht
        args
        (7 ∷ 7 ∷ 7 ∷ [])
        0
      ≡ some (ht', ret'))
    × ProcessesBatch crc (replicate 65537 0xff) ht args (7 ∷ 7 ∷ 7 ∷ []) 0 ht' ret'
process_frames-ProcessesBatch_example =
    process_frames-ProcessesBatch crc (replicate 65537 0xff) ht args (7 ∷ 7 ∷ 7 ∷ []) 0 args-IsBatch
      (length-replicate 65537 0xff) (refl, (refl, tt)) (omega arith)

abbrev stale : Pair
stale = record { key = 5; value = 6 }

dramblast_init-IsInitial_example :
    (ht' : Ht) × (backends' : LookUpTable) × (dramblast_init
        (λ size. some (replicate (size / 16) stale))
        (λ i. replicate 64 blank)
        8
        (replicate 65537 0)
      ≡ some (ht', backends'))
    × IsInitial crc 8 ht'
    × (length backends' ≡ 65537)
dramblast_init-IsInitial_example =
    dramblast_init-IsInitial crc (λ size. some (replicate (size / 16) stale))
      (λ i. replicate 64 blank) eight (replicate 65537 0) (length-replicate 65537 0)
      (λ size. (replicate (size / 16) stale, refl, length-replicate (size / 16) stale))
      (λ i. length-replicate 64 blank)
