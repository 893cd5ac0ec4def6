-- ===== src/Tests/Maps.antt =====
-- hashmap.c, `dramblast_insert_one` and hash.c.
use net_blast.Base.{
  none, ◌⊎◌, ℕ, ◌≡◌, refl, arith, List, [], Option, some, ◌>>=◌, ℤ, pos, replicate, set,
}
use net_blast.WordTable.{Pair, zero_pair, slots, contents}
use net_blast.WordTable.Insertion.{Inserts}
use net_blast.Hashmap.{
  maglev_hash, home, probe_index, insert_from, maglev_hashmap_insert, maglev_hashmap_get,
}
use net_blast.Hashmap.Insert.{insert-Inserts}
use net_blast.Hashmap.Get.{get-contents, get-insert}
use net_blast.Dramblast.{Ht, dramblast_hash}
use net_blast.Dramblast.Insert.{dramblast_insert_one}
use net_blast.Dramblast.Insert.Laws.{IsStore, insert_one-Inserts}
use net_blast.Capacity.{parse_capacity, IsCapacity}
use net_blast.Capacity.Accepted.{parse_capacity-IsCapacity}
use net_blast.Tests.Setup.{crc, eight, fresh, fresh-IsTable}

insert-Inserts_example :
    (code : ℤ) × (pairs' : List Pair) × (maglev_hashmap_insert crc 8 fresh 13 7
      ≡ some (code, pairs'))
    × Inserts 8 (home crc 8) fresh 13 7 code pairs'
insert-Inserts_example = insert-Inserts crc eight fresh (fresh-IsTable _) 13 (omega arith) 7

get-contents_example :
    (p : Option ℕ) × (maglev_hashmap_get crc 8 fresh 13 ≡ some p)
    × ((p >>= λ index. some (slots fresh index))
        ≡ (contents 8 (home crc 8) fresh 13 >>= λ v. some (record { key = 13; value = v })))
get-contents_example = get-contents crc eight fresh (fresh-IsTable _) 13 (omega arith)

abbrev one_pair : List Pair
one_pair = set fresh 5 (record { key = 13; value = 7 })

stored : maglev_hashmap_insert crc 8 fresh 13 7 ≡ some (pos 0, one_pair)
unfolding maglev_hashmap_insert insert_from home maglev_hash probe_index
    net_blast.WordTable.try_pair replicate
stored = refl

get-insert_example :
    (index : ℕ) × (maglev_hashmap_get crc 8 one_pair 13 ≡ some (some index))
    × (slots one_pair index ≡ record { key = 13; value = 7 })
get-insert_example = get-insert crc eight fresh (fresh-IsTable _) 13 (omega arith) 7 stored

abbrev empty_ht : Ht
empty_ht = record { table = fresh; len = 8; queues = [] }

empty_ht-IsStore : IsStore crc empty_ht
empty_ht-IsStore = record { capacity = eight; table = fresh-IsTable _ }

insert_one-Inserts_example :
    (code : ℤ) × (table' : List Pair) × (dramblast_insert_one crc empty_ht 13 7
      ≡ some (code, record empty_ht { table = table' }))
    × Inserts 8 (dramblast_hash crc 8) fresh 13 7 code table'
insert_one-Inserts_example = insert_one-Inserts crc empty_ht empty_ht-IsStore 13 (omega arith) 7

parse_capacity-IsCapacity_example :
    ((parse_capacity 24 ≡ some 24) × IsCapacity 24)
    ⊎ ((parse_capacity 24 ≡ none) × (¬ IsCapacity 24))
parse_capacity-IsCapacity_example = parse_capacity-IsCapacity 24 (omega arith)
