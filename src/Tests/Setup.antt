-- ===== src/Tests/Setup.antt =====
-- A table of eight pairs, with the identity for the CRC instruction, and lists of bytes.
use net_blast.Fnv.Bijection.{AreBytes}
use net_blast.Buffer.Reads.{byte}
use net_blast.Base.{
  zero, suc, ◌<◌, ◌^◌, ◌≡◌, Bool, true, ◌&&◌, ltb, [], ◌∷◌, ℕ, arith, refl, List, replicate,
  length-replicate, get_or-replicate,
}
use net_blast.Capacity.{IsCapacity}
use net_blast.WordTable.{Pair, zero_pair, IsTable}
use net_blast.WordTable.Zeroed.{zeroed-IsTable}

abbrev pub crc : ℕ → ℕ
crc k = k

pub eight : IsCapacity 8
eight = record { exponent = 3; small = omega arith; power = refl }

abbrev pub fresh : List Pair
fresh = replicate 8 zero_pair

pub fresh-IsTable : (home : ℕ → ℕ) → IsTable 8 home fresh
fresh-IsTable home =
    zeroed-IsTable 8 home fresh (length-replicate 8 zero_pair) (λ s. get_or-replicate 8 s zero_pair)

pub byte-lt : (bytes : List ℕ) → AreBytes bytes → (i : ℕ) → byte bytes i < 2 ^ 8
byte-lt [] h i = omega arith
byte-lt (b ∷ rest) h zero = h.0
byte-lt (b ∷ rest) h (suc i) = byte-lt rest h.1 i

abbrev are_bytes : List ℕ → Bool
are_bytes [] = true
are_bytes (b ∷ rest) = ltb b (2 ^ 8) && are_bytes rest

-- The bytes of a list that is given, by a run of the test.
pub are_bytes-AreBytes : (bytes : List ℕ) → are_bytes bytes ≡ true → AreBytes bytes
are_bytes-AreBytes [] h = tt
are_bytes-AreBytes (b ∷ rest) h = (ground arith, are_bytes-AreBytes rest (ground arith))
