-- ===== src/Dramblast/Hash.antt =====
-- `dramblast_hash` gives the first pair of a bucket of four, inside the table.
use native.Mathlib.Nat.{mod-lt}
use net_blast.Base.{ℕ, ◌-◌, ◌%◌, ◌<◌, ◌≡◌, arith, u64, bit_and, sub64, bit_and_bucket}
use net_blast.Capacity.{IsCapacity}
use net_blast.Capacity.Mask.{capacity_bounds, mask-capacity}
use net_blast.Dramblast.{dramblast_hash, bucket_idx_mask}

module _ {len : ℕ} (valid : IsCapacity len) where
  -- the two masks that every index goes through
  pub bucket_of :
      (x : ℕ)
      → (bit_and (bit_and x (sub64 len 1)) bucket_idx_mask ≡ x % len - x % len % 4)
        × (x % len < len)
  bucket_of x =
      let b = capacity_bounds valid in
      let small : x % len < len = mod-lt x (omega arith) in
      (rw (mask-capacity valid) (bit_and_bucket (x % len) (omega arith)), small)

  pub hash-lt :
      (crc : ℕ → ℕ) (k : ℕ) → (dramblast_hash crc len k < len) × (dramblast_hash crc len k % 4 ≡ 0)
  unfolding dramblast_hash
  hash-lt crc k = let (e, small) = bucket_of (u64 (crc k)) in (omega arith, omega arith)
