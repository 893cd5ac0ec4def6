-- ===== src/Capacity.antt =====
-- l2fwd/main.c: the global CAPACITY, and what the option -c makes of it. The index arithmetic of
-- both hash tables relies on the check that this option runs.
pub mod Mask
pub mod Accepted
use net_blast.Base.{
  ℕ, ◌^◌, ◌≤◌, ◌≡◌, Bool, ◌&&◌, ◌||◌, ◌==◌, not, ltb, bit_and, sub64, Option, none, some,
  if◌then◌else◌,
}

-- `uint64_t CAPACITY = (1 << 20) * 16`
abbrev pub default_capacity : ℕ
default_capacity = 2 ^ 24

-- `case 'c'` of `l2fwd_parse_args`, on the number that strtoull read: the new CAPACITY, or `none`
-- for the `return -1` of a refused number.
unfoldable pub parse_capacity : ℕ → Option ℕ
parse_capacity c =
    if c == 0 || not (bit_and c (sub64 c 1) == 0)
    then none
    else if ltb (2 ^ 32) c
    then none
    else some c

-- A power of two that the 32 bits of the hash can address.
pub record IsCapacity (c : ℕ) : Type 0 where
  pub exponent : ℕ
  pub small : exponent ≤ 32
  pub power : c ≡ 2 ^ exponent
