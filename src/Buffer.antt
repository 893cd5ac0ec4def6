-- ===== src/Buffer.antt =====
-- Reads and writes of bytes in a frame, which l2fwd/libsashstore/packettool.c, sashstore.c and
-- l2fwd/main.c make through pointers: `memcpy`, the loop of a hash, and stores of words. A frame is
-- the list of its bytes, and a pointer into it is an offset.
pub mod Reads
pub mod Stores
use net_blast.Base.{
  ℕ, zero, suc, ◌+◌, ◌/◌, ◌%◌, ltb, List, [], ◌∷◌, length, get_elem?, set, ◌>>=◌, Option, none,
  some, if◌then◌else◌,
}

-- the `n` bytes from the offset `at` on; `none` is a read behind the end of the frame
unfoldable pub bytes_at : List ℕ → ℕ → ℕ → Option (List ℕ)
bytes_at frame at zero = some []
bytes_at frame at (suc n) =
    get_elem? frame at >>= λ b. bytes_at frame (at + 1) n >>= λ rest. some (b ∷ rest)

-- A store of bytes from the offset `at` on; `none` is a store behind the end of the frame.
unfoldable pub store_bytes : List ℕ → ℕ → List ℕ → Option (List ℕ)
store_bytes frame at [] = some frame
store_bytes frame at (b ∷ bytes) =
    if ltb at (length frame) then store_bytes (set frame at b) (suc at) bytes else none

-- the `n` low bytes of a word, as they lie in memory
abbrev pub low_bytes : ℕ → ℕ → List ℕ
low_bytes zero word = []
low_bytes (suc n) word = word % 256 ∷ low_bytes n (word / 256)
