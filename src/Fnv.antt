-- ===== src/Fnv.antt =====
-- l2fwd/libsashstore/hash.c: the Fowler-Noll-Vo hashes on 64 bits.
pub mod Bijection
use Prim.Native.Nat.{bit_xor}
use net_blast.Base.{ℕ, ◌+◌, ◌-◌, ◌*◌, ◌^◌, ltb, List, [], ◌∷◌, if◌then◌else◌, u64}

abbrev pub fnv_basis : ℕ
fnv_basis = 0xcbf29ce484222325

abbrev pub fnv_prime : ℕ
fnv_prime = 0x100000001b3

-- The `char` of a byte, converted to uint64_t for `^=`. `char` is signed on x86-64, for which the
-- library is written, so a byte from 128 on is extended by ones.
unfoldable pub char_to_u64 : ℕ → ℕ
char_to_u64 b = if ltb b 128 then b else b + 2 ^ 64 - 2 ^ 8

-- `for (i = 0; i < len; ++i) { state *= FNV_PRIME; state ^= data[i]; }` over the bytes of `data`
unfoldable pub fnv_1_multi : List ℕ → ℕ → ℕ
fnv_1_multi [] state = state
fnv_1_multi (b ∷ rest) state = fnv_1_multi rest (bit_xor (u64 (state * fnv_prime)) (char_to_u64 b))

unfoldable pub fnv_1 : List ℕ → ℕ
fnv_1 bytes = fnv_1_multi bytes fnv_basis

-- It calls `fnv_1_multi`, as the source does.
unfoldable pub fnv_1a : List ℕ → ℕ
fnv_1a bytes = fnv_1_multi bytes fnv_basis

unfoldable pub fnv_1a_multi : List ℕ → ℕ → ℕ
fnv_1a_multi [] state = state
fnv_1a_multi (b ∷ rest) state = fnv_1a_multi rest (u64 (bit_xor state (char_to_u64 b) * fnv_prime))
