-- ===== src/L2fwd/Mac.antt =====
-- What `l2fwd_mac_updating` writes.
use net_blast.Base.{
  ℕ, zero, suc, ◌/◌, ◌≤◌, ◌≡◌, refl, ap, arith, ltb, lt→ltb, List, [], ◌∷◌, ◌++◌, length,
  length-append, get_elem?, set, ◌>>=◌, some, true, false, Bool-cases, inl, inr,
}
use mathlib.Core.List.{append_assoc}
use net_blast.Buffer.{low_bytes, store_bytes}
use net_blast.L2fwd.{l2fwd_mac_updating}

store_bytes-cons :
    (x : ℕ) (frame : List ℕ) (at : ℕ) (bytes : List ℕ)
    → store_bytes (x ∷ frame) (suc at) bytes ≡ (store_bytes frame at bytes >>= λ f. some (x ∷ f))
unfolding store_bytes
store_bytes-cons x frame at [] = refl
store_bytes-cons x frame at (b ∷ bytes) = elim (Bool-cases (ltb at (length frame))) [
  | inl p ↦
      let q : ltb (suc at) (suc (length frame)) ≡ true = ground arith in
      rw (p, q) (store_bytes-cons x (set frame at b) (suc at) bytes)
  | inr p ↦ let q : ltb (suc at) (suc (length frame)) ≡ false = ground arith in rw (p, q) refl
]

-- A store at the start of a frame.
store_bytes-start :
    (old new rest : List ℕ)
    → length old ≡ length new
    → store_bytes (old ++ rest) 0 new ≡ some (new ++ rest)
unfolding store_bytes
store_bytes-start [] [] rest h = refl
store_bytes-start [] (b ∷ new) rest h = absurd (omega arith)
store_bytes-start (o ∷ old) [] rest h = absurd (omega arith)
store_bytes-start (o ∷ old) (b ∷ new) rest h =
    rw
      (
        lt→ltb 0 (suc (length (old ++ rest))) (omega arith),
        store_bytes-cons b (old ++ rest) 0 new,
        store_bytes-start old new rest (omega arith),
      )
      refl

-- A store behind a prefix of a frame.
store_bytes-behind :
    (before old new rest : List ℕ)
    → length old ≡ length new
    → store_bytes (before ++ (old ++ rest)) (length before) new ≡ some (before ++ (new ++ rest))
store_bytes-behind [] old new rest h = store_bytes-start old new rest h
store_bytes-behind (x ∷ before) old new rest h =
    rw
      (
        store_bytes-cons x (before ++ (old ++ rest)) (length before) new,
        store_bytes-behind before old new rest h,
      )
      refl

split_at :
    (n : ℕ) (xs : List ℕ)
    → n ≤ length xs
    → (a : List ℕ) × (b : List ℕ) × (xs ≡ a ++ b) × (length a ≡ n)
split_at zero xs h = ([], xs, refl, refl)
split_at (suc n) [] h = absurd (omega arith)
split_at (suc n) (x ∷ xs) h =
    let (a, b, e, l) = split_at n xs (omega arith) in (x ∷ a, b, ap (λ ys. x ∷ ys) e, ap suc l)

-- On a frame of at least twelve bytes `l2fwd_mac_updating` stays within the frame: the six low bytes of
-- the MAC become the destination, the address of the port becomes the source, and what the store of
-- 64 bits wrote of the source is written over. The rest of the frame stays.
pub mac_updating_lem :
    (addrs : List (List ℕ)) (old rest : List ℕ) (port mac : ℕ) {addr : List ℕ}
    → length old ≡ 12
    → get_elem? addrs port ≡ some addr
    → length addr ≡ 6
    → l2fwd_mac_updating addrs (old ++ rest) port mac ≡ some (low_bytes 6 mac ++ (addr ++ rest))
unfolding l2fwd_mac_updating
mac_updating_lem addrs old rest port mac {addr} twelve known six =
    let (a, b, e, l) = split_at 8 old (omega arith) in
    let four : length b ≡ 4 = omega (arith, length-append a b, ap length e) in
    let word = low_bytes 8 mac in
    let first : store_bytes (old ++ rest) 0 word ≡ some (word ++ (b ++ rest)) =
      rw (e, append_assoc) (store_bytes-start a word (b ++ rest) l) in
    rw (first, known)
      (store_bytes-behind (low_bytes 6 mac)
        (low_bytes 2 (mac / 256 / 256 / 256 / 256 / 256 / 256) ++ b) addr rest (omega arith))

-- The same for a frame that is not given in parts.
pub mac_updating-runs :
    (addrs : List (List ℕ)) (frame : List ℕ) (port mac : ℕ) {addr : List ℕ}
    → 12 ≤ length frame
    → get_elem? addrs port ≡ some addr
    → length addr ≡ 6
    → (frame' : List ℕ) × (l2fwd_mac_updating addrs frame port mac ≡ some frame')
      × (length frame' ≡ length frame)
mac_updating-runs addrs frame port mac {addr} long known six =
    let (old, rest, e, l) = split_at 12 frame long in
    (
      low_bytes 6 mac ++ (addr ++ rest),
      rw e (mac_updating_lem addrs old rest port mac l known six),
      omega (
        arith,
        ap length e,
        length-append old rest,
        length-append (low_bytes 6 mac) (addr ++ rest),
        length-append addr rest,
      ),
    )
