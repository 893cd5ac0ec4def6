-- ===== src/Buffer/Stores.antt =====
-- What a store of bytes within a frame leaves.
use net_blast.Base.{
  ℕ, zero, suc, ◌+◌, ◌≤◌, ◌≡◌, ◌⊎◌, inl, inr, refl, ap₂, ◌∙◌, subst, arith, List, [], ◌∷◌, length,
  length-set, get_or-set_self, get_or-set_ne, set, some, lt→ltb,
}
use net_blast.Buffer.{store_bytes}
use net_blast.Buffer.Reads.{byte, slice}

-- Two ranges of a frame that do not meet.
abbrev pub Apart : ℕ → ℕ → ℕ → ℕ → Type 0
Apart at n at' n' = (at + n ≤ at') ⊎ (at' + n' ≤ at)

-- `frame'` is `frame` with `bytes` stored at `at`.
pub record IsStored (frame : List ℕ) (at : ℕ) (bytes frame' : List ℕ) : Type 0 where
  pub sized : length frame' ≡ length frame
  pub there : slice frame' at (length bytes) ≡ bytes
  pub elsewhere : (i : ℕ) → Apart at (length bytes) i 1 → byte frame' i ≡ byte frame i

pub store_bytes-IsStored :
    (bytes frame : List ℕ) (at : ℕ)
    → at + length bytes ≤ length frame
    → (frame' : List ℕ) × (store_bytes frame at bytes ≡ some frame')
      × IsStored frame at bytes frame'
unfolding store_bytes
store_bytes-IsStored [] frame at h =
    (frame, refl, record { sized = refl; there = refl; elsewhere = λ i _. refl })
store_bytes-IsStored (b ∷ bytes) frame at h =
    let first = set frame at b in
    let len = length-set frame at b in
    let (frame', e, r) = store_bytes-IsStored bytes first (suc at) (omega arith) in
    let next : suc at ≡ at + 1 = omega arith in
    (
      frame',
      rw (lt→ltb at (length frame) (omega arith)) e,
      record {
        sized = r.sized ∙ len;
        there =
            ap₂ (λ x xs. x ∷ xs)
              (r.elsewhere at (inr (omega arith)) ∙ get_or-set_self frame at b 0 (omega arith))
              (subst (λ p. slice frame' p (length bytes) ≡ bytes) next r.there);
        elsewhere = λ i apart.
            r.elsewhere i (elim apart [ inl p ↦ inl (omega arith) | inr p ↦ inr (omega arith) ])
            ∙ get_or-set_ne frame at i b 0
                (λ eq. elim apart [ inl p ↦ omega arith | inr p ↦ omega arith ]);
      },
    )

-- A field that a store does not meet keeps its bytes.
pub kept_slice :
    {frame : List ℕ} {at : ℕ} {bytes frame' : List ℕ}
    → IsStored frame at bytes frame'
    → (n p : ℕ) → Apart at (length bytes) p n
    → slice frame' p n ≡ slice frame p n
kept_slice r zero p apart = refl
kept_slice {at = at} {bytes = bytes} r (suc n) p apart =
    ap₂ (λ x xs. x ∷ xs)
      (r.elsewhere p (elim apart [ inl h ↦ inl (omega arith) | inr h ↦ inr (omega arith) ]))
      (kept_slice r n (p + 1)
        (elim apart [ inl h ↦ inl (omega arith) | inr h ↦ inr (omega arith) ]))
