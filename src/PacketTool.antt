-- ===== src/PacketTool.antt =====
-- l2fwd/libsashstore/packettool.c: `get_udp_payload` and `flowhash`. A frame is the list of its
-- bytes, and a read behind its end is the outcome `none`: the code is not told the length of a frame
-- and has no test for it.
pub mod Flow
use net_blast.Base.{
  ℕ, zero, suc, ◌+◌, ◌-◌, ◌*◌, ◌/◌, ◌^◌, Bool, ◌&&◌, not, ◌==◌, ltb, List, [], ◌∷◌, get_elem?,
  ◌>>=◌, Option, none, some, if◌then◌else◌, bit_and, u32,
}
use net_blast.Buffer.{bytes_at}
use net_blast.Fnv.{fnv_basis, fnv_1_multi}

abbrev pub eth_header_len : ℕ
eth_header_len = 14

abbrev pub udp_header_len : ℕ
udp_header_len = 8

abbrev pub ipv4_proto_offset : ℕ
ipv4_proto_offset = 9

abbrev pub ipv4_srcdst_offset : ℕ
ipv4_srcdst_offset = 12

abbrev pub ipv4_srcdst_len : ℕ
ipv4_srcdst_len = 8

-- The bit pattern of the int that a `char` is promoted to; `char` is signed on x86-64.
abbrev pub char_to_int : ℕ → ℕ
char_to_int b = if ltb b 128 then b else b + 2 ^ 32 - 2 ^ 8

-- `c >> 4` of that int: its sign is shifted in.
abbrev pub char_shr4 : ℕ → ℕ
char_shr4 b = if ltb b 128 then b / 16 else b / 16 + 2 ^ 32 - 2 ^ 4

-- the address of the payload, as an offset into the frame; `some none` is NULL
unfoldable pub get_udp_payload : List ℕ → Option (Option ℕ)
get_udp_payload frame = get_elem? frame eth_header_len >>= λ c.
    if not (char_shr4 c == 4)
    then some none
    else (get_elem? frame (eth_header_len + ipv4_proto_offset) >>= λ proto.
        if not (proto == 17)
        then some none
        else some (some (eth_header_len + u32 (bit_and (char_to_int c) 0xf * 4) + udp_header_len)))

-- a call of `fnv_1_multi` on part of the frame
abbrev pub hash_at : List ℕ → ℕ → ℕ → ℕ → Option ℕ
hash_at frame at n hash = bytes_at frame at n >>= λ bytes. some (fnv_1_multi bytes hash)

unfoldable pub flowhash : List ℕ → Option ℕ
flowhash frame = get_elem? frame eth_header_len >>= λ c.
    if not (char_shr4 c == 4)
    then some 0
    else (get_elem? frame (eth_header_len + ipv4_proto_offset) >>= λ proto.
        if not (char_to_int proto == 6) && not (char_to_int proto == 17)
        then some 0
        else (let v4len = 4 * bit_and (char_to_int c) 0b1111 in
            hash_at frame (eth_header_len + ipv4_srcdst_offset) ipv4_srcdst_len fnv_basis >>= λ h1.
            hash_at frame (eth_header_len + ipv4_proto_offset) 1 h1 >>= λ h2.
            hash_at frame (eth_header_len + v4len) 4 h2))
