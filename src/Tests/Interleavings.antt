-- ===== src/Tests/Interleavings.antt =====
-- Three cores that insert at once into a table of eight pairs, two of them the same key.
use net_blast.Base.{
  ℕ, ◌+◌, ◌*◌, ◌==◌, ◌≤◌, ◌≡◌, refl, arith, List, [], ◌∷◌, some, ◌>>=◌, if◌then◌else◌, ℤ, replicate,
  set,
}
use net_blast.Dramblast.{dramblast_hash}
use net_blast.Dramblast.Concurrent.{Core, Call, begin, core_step, System, interleave}
use net_blast.Dramblast.Concurrent.Schedules.{times}
use net_blast.Dramblast.Concurrent.Serial.{
  start, IsSerial, interleave-IsSerial, IsAnswer, interleave-Returns,
}
use net_blast.Dramblast.{Ht}
use net_blast.Dramblast.Concurrent.Alone.{Agrees, alone-insert_one}
use net_blast.Dramblast.Concurrent.Affinity.{IsSettled, interleave-IsSettled}
use net_blast.Tests.Setup.{crc, eight, fresh, fresh-IsTable}

abbrev keys : ℕ → ℕ
keys i = if i == 2 then 21 else 13

abbrev values : ℕ → ℕ
values i = i + 70

abbrev three_cores : System
three_cores = start crc eight keys values fresh (fresh-IsTable _)

-- Both cores see the empty pair before one of them claims it.
abbrev race : List ℕ
race = 0 ∷ 1 ∷ 0 ∷ 1 ∷ 1 ∷ 1 ∷ []

-- The core that lost the race replaces the value of the core that won.
raced :
    (interleave 8 race three_cores >>= λ s. some s.table)
    ≡ some (set fresh 4 (record { key = 13; value = 71 }))
unfolding interleave core_step begin replicate dramblast_hash
raced = refl

interleave-IsSerial_example :
    (s : System) × (writes : List ℕ) × (interleave 8 race three_cores ≡ some s)
    × IsSerial crc eight keys values fresh (fresh-IsTable _) s writes
interleave-IsSerial_example = interleave-IsSerial crc eight keys values fresh (fresh-IsTable _) race

-- Core 0 stops inside its call, and core 2 goes on alone.
abbrev stopped : List ℕ
stopped = 0 ∷ 1 ∷ 2 ∷ 0 ∷ replicate 32 2

enough : 4 * 8 ≤ times 2 stopped
unfolding times replicate
enough = omega arith

interleave-Returns_example :
    (s : System) × (c : Call) × (code : ℤ) × (interleave 8 stopped three_cores ≡ some s)
    × (s.cores 2 ≡ Core.returned c code)
    × IsAnswer crc eight keys values fresh (fresh-IsTable _) s.table 2 code
interleave-Returns_example =
    interleave-Returns crc eight keys values fresh (fresh-IsTable _) stopped 2 enough

abbrev one_backend : ℕ → ℕ
one_backend k = k + 300

interleave-IsSettled_example :
    (s : System) × (interleave 8 race
        (start crc eight keys (λ i. one_backend (keys i)) fresh (fresh-IsTable _))
      ≡ some s)
    × IsSettled crc eight keys one_backend fresh (fresh-IsTable _) s
interleave-IsSettled_example =
    interleave-IsSettled crc eight keys one_backend fresh (fresh-IsTable _) race

abbrev empty_store : Ht
empty_store = record { table = fresh; len = 8; queues = [] }

alone-insert_one_example : Agrees crc empty_store 21 72 2 three_cores
unfolding begin
alone-insert_one_example =
    alone-insert_one crc empty_store 21 72 2 (record { capacity = eight; table = fresh-IsTable _ })
      three_cores refl refl
