-- ===== src/Fnv/Bijection.antt =====
-- One round of the hash can be undone, so no two states of the hash meet on the same data.
use net_blast.Base.{
  ℕ, ◌*◌, ◌^◌, ◌<◌, ◌≡◌, ◌≢◌, ap, ◌∙◌, sym, arith, List, [], ◌∷◌, ◌++◌, refl, u64, bit_xor,
  bit_xor_injective, bit_xor_right, bit_xor-lt,
}
use net_blast.Fnv.{fnv_prime, fnv_basis, char_to_u64, fnv_1_multi, fnv_1}

-- the inverse of FNV_PRIME modulo 2 ^ 64
abbrev prime_inverse : ℕ
prime_inverse = 0xce965057aff6957b

unmul : (s : ℕ) → s < 2 ^ 64 → u64 (u64 (s * fnv_prime) * prime_inverse) ≡ s
unmul s h = omega arith

char_to_u64-lt : (b : ℕ) → b < 2 ^ 8 → char_to_u64 b < 2 ^ 64
unfolding char_to_u64
char_to_u64-lt b h = ground arith

-- the bytes of a C array
abbrev pub AreBytes : List ℕ → Type 0
AreBytes [] = Unit {0}
AreBytes (b ∷ rest) = (b < 2 ^ 8) × AreBytes rest

round-lt : (s b : ℕ) → b < 2 ^ 8 → bit_xor (u64 (s * fnv_prime)) (char_to_u64 b) < 2 ^ 64
round-lt s b h =
    bit_xor-lt 64 (u64 (s * fnv_prime)) (char_to_u64 b) (omega arith) (char_to_u64-lt b h)

-- `fnv_1_multi` stays within 64 bits.
pub fnv_1_multi-lt :
    (bytes : List ℕ) (s : ℕ) → AreBytes bytes → s < 2 ^ 64 → fnv_1_multi bytes s < 2 ^ 64
unfolding fnv_1_multi
fnv_1_multi-lt [] s h p = p
fnv_1_multi-lt (b ∷ rest) s h p = fnv_1_multi-lt rest _ h.1 (round-lt s b h.0)

-- Hashing in pieces, as `flowhash` does, is hashing the pieces one behind the other.
pub fnv_1_multi-append :
    (xs ys : List ℕ) (s : ℕ) → fnv_1_multi (xs ++ ys) s ≡ fnv_1_multi ys (fnv_1_multi xs s)
unfolding fnv_1_multi
fnv_1_multi-append [] ys s = refl
fnv_1_multi-append (b ∷ xs) ys s =
    fnv_1_multi-append xs ys (bit_xor (u64 (s * fnv_prime)) (char_to_u64 b))

mul_injective :
    (s s' : ℕ) → s < 2 ^ 64 → s' < 2 ^ 64 → u64 (s * fnv_prime) ≡ u64 (s' * fnv_prime) → s ≡ s'
mul_injective s s' p q e = sym (unmul s p) ∙ ap (λ x. u64 (x * prime_inverse)) e ∙ unmul s' q

-- On the same data two different states of the hash stay different.
pub fnv_1_multi-injective :
    (bytes : List ℕ) (s s' : ℕ)
    → AreBytes bytes
    → s < 2 ^ 64
    → s' < 2 ^ 64
    → fnv_1_multi bytes s ≡ fnv_1_multi bytes s'
    → s ≡ s'
unfolding fnv_1_multi
fnv_1_multi-injective [] s s' h p q e = e
fnv_1_multi-injective (b ∷ rest) s s' h p q e =
    let states = fnv_1_multi-injective rest _ _ h.1 (round-lt s b h.0) (round-lt s' b h.0) e in
    mul_injective s s' p q (bit_xor_injective _ _ (char_to_u64 b) states)

char_injective : (a b : ℕ) → a < 2 ^ 8 → b < 2 ^ 8 → char_to_u64 a ≡ char_to_u64 b → a ≡ b
unfolding char_to_u64
char_injective a b p q e = ground arith

-- `fnv_1` tells apart any two byte strings that differ in one byte only.
pub fnv_1_one_byte :
    (before after : List ℕ) (a b : ℕ)
    → AreBytes after
    → a < 2 ^ 8
    → b < 2 ^ 8
    → a ≢ b
    → fnv_1 (before ++ a ∷ after) ≢ fnv_1 (before ++ b ∷ after)
unfolding fnv_1
fnv_1_one_byte before after a b h p q ne e = ne (
    char_injective a b p q (
      bit_xor_right _ _ _ (
        fnv_1_multi-injective after _ _ h (round-lt state a p) (round-lt state b q)
          (unfold fnv_1_multi in last))))
  where
    state : ℕ
    state = fnv_1_multi before fnv_basis

    last : fnv_1_multi (a ∷ after) state ≡ fnv_1_multi (b ∷ after) state
    last =
        sym (fnv_1_multi-append before (a ∷ after) fnv_basis)
        ∙ e
        ∙ fnv_1_multi-append before (b ∷ after) fnv_basis
