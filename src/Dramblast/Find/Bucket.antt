-- ===== src/Dramblast/Find/Bucket.antt =====
-- The four pairs of a bucket are four successive probes of the search.
use native.Mathlib.Nat.{pow-succ', mod-eq_of_lt, mod-add-mod, mod_self}
use net_blast.Base.{
  ℕ, zero, suc, ◌+◌, ◌%◌, ◌^◌, ◌≤◌, ◌<◌, ◌≡◌, inl, inr, ap, arith, u64, sub64, bit_and, List,
  nat_eq, ltb, Bool-cases,
}
use net_blast.Capacity.{IsCapacity}
use net_blast.Capacity.Mask.{capacity_bounds}
use net_blast.Probe.{spot}
use net_blast.Probe.Search.{one_turn}
use net_blast.WordTable.{Pair}
use net_blast.Dramblast.{dramblast_hash, bucket_idx_mask}
use net_blast.Dramblast.Hash.{hash-lt, bucket_of}
use net_blast.Dramblast.Find.Spec.{L}

four-le-two-pow : (n : ℕ) → 4 ≤ 2 ^ n → 2 ^ n % 4 ≡ 0
four-le-two-pow zero h = absurd (omega arith)
four-le-two-pow (suc zero) h = absurd (omega arith)
four-le-two-pow (suc (suc n)) h = omega (arith, pow-succ' 2 (suc n), pow-succ' 2 n)

module _ {len : ℕ} (valid : IsCapacity len) (roomy : 4 ≤ len) where
  pub len-mod-four : len % 4 ≡ 0
  len-mod-four = rw valid.power (four-le-two-pow valid.exponent (rw valid.power at roomy))

  module _ (crc : ℕ → ℕ) (table : List Pair) (k c : ℕ) (aligned : c % 4 ≡ 0)
      (inside : c < len) where
    abbrev start : ℕ
    start = spot (L crc table len) k c

    pub start_aligned : (start % 4 ≡ 0) × (start + 4 ≤ len)
    start_aligned =
        let (h, a) = hash-lt valid crc k in
        let l = len-mod-four in omega (arith, one_turn len (dramblast_hash crc len k) c h inside)

    -- the pair `j` of the bucket is the probe `c + j`
    pub spot_in : (j : ℕ) → j < 4 → spot (L crc table len) k (c + j) ≡ start + j
    spot_in j h =
        let (_, fits) = start_aligned in
        omega (
          arith,
          mod-add-mod (dramblast_hash crc len k + c) len j,
          mod-eq_of_lt {n = start + j} {m = len} (omega arith),
          ap (λ x. x % len) (regroup j),
        )
      where
        regroup : (i : ℕ) → dramblast_hash crc len k + c + i ≡ dramblast_hash crc len k + (c + i)
        regroup i = omega arith

    -- the index that is pushed for the next bucket is that of the probe `c + 4`
    pub next_start :
        bit_and (bit_and (u64 (start + 4)) (sub64 len 1)) bucket_idx_mask
        ≡ spot (L crc table len) k (c + 4)
    next_start =
        let (at_four, fits) = start_aligned in
        let b = capacity_bounds valid in
        let l = len-mod-four in
        let no_wrap = mod-eq_of_lt {n = start + 4} {m = 2 ^ 64} (omega arith) in
        let (masked, _) = bucket_of valid (start + 4) in
        rw (no_wrap, masked)
          (omega (
            arith,
            mod-add-mod (dramblast_hash crc len k + c) len 4,
            ap (λ x. x % len) regroup,
            round_aligned,
          ))
      where
        round_aligned : (start + 4) % len % 4 ≡ 0
        round_aligned =
            let (at_four, fits) = start_aligned in
            elim (Bool-cases (ltb (start + 4) len)) [
              | inl p ↦ omega (arith, mod-eq_of_lt {n = start + 4} {m = len} (ground arith))
              | inr p ↦
                  let e : start + 4 ≡ len = ground arith in
                  omega (arith, ap (λ x. x % len) e, mod_self len)
            ]

        regroup : dramblast_hash crc len k + c + 4 ≡ dramblast_hash crc len k + (c + 4)
        regroup = omega arith
