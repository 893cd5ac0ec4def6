-- ===== src/Buffer/Reads.antt =====
-- What a read of bytes that are there yields.
use net_blast.Base.{
  ap₂, ◌∙◌, sym, ◌<◌, ℕ, zero, suc, ◌+◌, ◌≤◌, ◌≡◌, refl, ap, arith, List, [], ◌∷◌, length, get_or,
  get_elem?-eq-get_or, some,
}
use net_blast.Buffer.{bytes_at}

-- the byte at an offset, where the frame has one
abbrev pub byte : List ℕ → ℕ → ℕ
byte frame i = get_or frame i 0

-- the `n` bytes from an offset on, where the frame has them
abbrev pub slice : List ℕ → ℕ → ℕ → List ℕ
slice frame at zero = []
slice frame at (suc n) = byte frame at ∷ slice frame (at + 1) n

pub bytes_at-slice :
    (frame : List ℕ) (n at : ℕ)
    → at + n ≤ length frame
    → bytes_at frame at n ≡ some (slice frame at n)
unfolding bytes_at
bytes_at-slice frame zero at h = refl
bytes_at-slice frame (suc n) at h =
    rw (get_elem?-eq-get_or frame at 0 (omega arith), bytes_at-slice frame n (at + 1) (omega arith))

pub length-slice : (frame : List ℕ) (n at : ℕ) → length (slice frame at n) ≡ n
length-slice frame zero at = refl
length-slice frame (suc n) at = ap suc (length-slice frame n (at + 1))

pub byte-slice :
    (frame : List ℕ) (n at i : ℕ) → i < n → byte (slice frame at n) i ≡ byte frame (at + i)
byte-slice frame zero at i h = absurd (omega arith)
byte-slice frame (suc n) at zero h = ap (byte frame) (omega arith)
byte-slice frame (suc n) at (suc i) h =
    byte-slice frame n (at + 1) i (omega arith) ∙ ap (byte frame) (omega arith)

-- What a frame starts with is what it holds at the places of it.
pub byte-start :
    (frame head : List ℕ) (i : ℕ)
    → slice frame 0 (length head) ≡ head
    → i < length head
    → byte frame i ≡ byte head i
byte-start frame head i start h =
    ap (byte frame) (omega arith)
    ∙ sym (byte-slice frame (length head) 0 i h)
    ∙ ap (λ xs. byte xs i) start

pub slice-start :
    (frame head : List ℕ) (n at : ℕ)
    → slice frame 0 (length head) ≡ head
    → at + n ≤ length head
    → slice frame at n ≡ slice head at n
slice-start frame head zero at start h = refl
slice-start frame head (suc n) at start h =
    ap₂ (λ x xs. x ∷ xs) (byte-start frame head at start (omega arith))
      (slice-start frame head n (at + 1) start (omega arith))
