-- ===== src/PacketTool/Flow.antt =====
-- The flow hash: which frames have one, and what it depends on.
use native.Mathlib.Decide.{ℕ_discrete}
use net_blast.Base.{
  ne→==, none, ℕ, zero, suc, ◌+◌, ◌*◌, ◌/◌, ◌%◌, ◌^◌, ◌≤◌, ◌<◌, ◌≡◌, ◌≢◌, ◌⊎◌, inl, inr, refl, ap,
  ◌∙◌, sym, arith, List, [], ◌∷◌, ◌++◌, length, get_elem?, get_elem?-eq-get_or, some, not, ◌&&◌,
  ◌==◌, Bool, true, false, Bool-cases, bit_and, bit_and_mask,
}
use net_blast.Buffer.Reads.{byte, slice, bytes_at-slice}
use net_blast.Fnv.{fnv_basis, fnv_1_multi, fnv_1}
use net_blast.Fnv.Bijection.{AreBytes, fnv_1_multi-lt, fnv_1_multi-append}
use net_blast.PacketTool.{get_udp_payload, flowhash, char_to_int, char_shr4}

-- the length of the IPv4 header, by its low four bits
abbrev pub header_len : List ℕ → ℕ
header_len frame = 4 * (byte frame 14 % 16)

-- IPv4, by the high four bits of its first byte
abbrev pub IsIpv4 : List ℕ → Type 0
IsIpv4 frame = byte frame 14 / 16 ≡ 4

-- UDP over IPv4
abbrev pub IsUdp : List ℕ → Type 0
IsUdp frame = IsIpv4 frame × (byte frame 23 ≡ 17)

-- TCP or UDP over IPv4
abbrev pub IsFlow : List ℕ → Type 0
IsFlow frame = IsIpv4 frame × ((byte frame 23 ≡ 6) ⊎ (byte frame 23 ≡ 17))

-- the addresses, the protocol and the ports
abbrev pub flow_key : List ℕ → List ℕ
flow_key frame = slice frame 26 8 ++ (slice frame 23 1 ++ slice frame (14 + header_len frame) 4)

low_bits : (b : ℕ) → b < 2 ^ 8 → bit_and (char_to_int b) 15 ≡ b % 16
low_bits b h = bit_and_mask 4 (char_to_int b) ∙ ground arith

-- A frame of which the code reads only bytes that are there: it has both addresses and ends behind
-- its ports, which lie behind the options of the IPv4 header.
pub record IsFrame (frame : List ℕ) : Type 0 where
  pub bytes : (i : ℕ) → byte frame i < 2 ^ 8
  pub enough : 34 ≤ length frame
  pub ports : 14 + header_len frame + 4 ≤ length frame

IsFlow-cases : (frame : List ℕ) → IsFlow frame ⊎ (¬ IsFlow frame)
IsFlow-cases frame = elim (ℕ_discrete (byte frame 14 / 16) 4) [
  | no n ↦ inr (λ f. n f.0)
  | yes v ↦ elim (ℕ_discrete (byte frame 23) 6) [
    | yes a ↦ inl (v, inl a)
    | no a ↦ elim (ℕ_discrete (byte frame 23) 17) [
      | yes b ↦ inl (v, inr b)
      | no b ↦ inr (λ f. elim f.1 [ inl x ↦ a x | inr x ↦ b x ])
    ]
  ]
]

slice-AreBytes :
    (frame : List ℕ) (n at : ℕ) → ((i : ℕ) → byte frame i < 2 ^ 8) → AreBytes (slice frame at n)
slice-AreBytes frame zero at h = tt
slice-AreBytes frame (suc n) at h = (h at, slice-AreBytes frame n (at + 1) h)

pub AreBytes-append : (xs ys : List ℕ) → AreBytes xs → AreBytes ys → AreBytes (xs ++ ys)
AreBytes-append [] ys h k = k
AreBytes-append (x ∷ xs) ys h k = (h.0, AreBytes-append xs ys h.1 k)

key_bytes : (frame : List ℕ) → ((i : ℕ) → byte frame i < 2 ^ 8) → AreBytes (flow_key frame)
key_bytes frame h =
    AreBytes-append (slice frame 26 8) (slice frame 23 1 ++ slice frame (14 + header_len frame) 4)
      (slice-AreBytes frame 8 26 h)
      (AreBytes-append (slice frame 23 1) (slice frame (14 + header_len frame) 4)
        (slice-AreBytes frame 1 23 h) (slice-AreBytes frame 4 (14 + header_len frame) h))

module _ (frame : List ℕ) (ok : IsFrame frame) where
  read : (i : ℕ) → i < length frame → get_elem? frame i ≡ some (byte frame i)
  read i h = get_elem?-eq-get_or frame i 0 h

  is_four : IsIpv4 frame → (char_shr4 (byte frame 14) == 4) ≡ true
  is_four v = let h = ok.bytes 14 in ground arith

  abbrev unless_flow : Bool
  unless_flow = not (char_to_int (byte frame 23) == 6) && not (char_to_int (byte frame 23) == 17)

  known_proto : (byte frame 23 ≡ 6) ⊎ (byte frame 23 ≡ 17) → unless_flow ≡ false
  known_proto (inl e) = rw e refl
  known_proto (inr e) = rw e refl

  unknown_proto : byte frame 23 ≢ 6 → byte frame 23 ≢ 17 → unless_flow ≡ true
  unknown_proto a b = let h = ok.bytes 23 in ground arith

  -- `flowhash` of a TCP or UDP frame over IPv4 of at least 34 bytes, which ends behind its ports, is
  -- the FNV-1 hash of the addresses, the protocol and the ports, which lie behind the options of the
  -- IPv4 header.
  pub flowhash-flow_key : IsFlow frame → flowhash frame ≡ some (fnv_1 (flow_key frame))
  unfolding flowhash fnv_1
  flowhash-flow_key (v, proto) =
      let four = is_four v in
      let known = known_proto proto in
      let enough = ok.enough in
      let ports = ok.ports in
      rw (read 14 (omega arith), four, read 23 (omega arith), known)
        (rw
          (
            bytes_at-slice frame 8 26 (omega arith),
            bytes_at-slice frame 1 23 (omega arith),
            low_bits (byte frame 14) (ok.bytes 14),
            bytes_at-slice frame 4 (14 + header_len frame) (omega arith),
          )
          (ap some (sym pieces)))
    where
      pieces :
          fnv_1_multi (flow_key frame) fnv_basis
          ≡ fnv_1_multi
              (slice frame (14 + header_len frame) 4)
              (fnv_1_multi (slice frame 23 1) (fnv_1_multi (slice frame 26 8) fnv_basis))
      pieces =
          fnv_1_multi-append (slice frame 26 8) _ fnv_basis
          ∙ fnv_1_multi-append (slice frame 23 1) (slice frame (14 + header_len frame) 4) _

  -- `flowhash` of any other frame of at least 34 bytes, which ends behind the place of the ports, is
  -- 0.
  pub flowhash-other : ¬ IsFlow frame → flowhash frame ≡ some 0
  unfolding flowhash
  flowhash-other other =
      let enough = ok.enough in
      let ports = ok.ports in
      elim (Bool-cases (char_shr4 (byte frame 14) == 4)) [
        | inr p ↦ rw (read 14 (omega arith), p) refl
        | inl p ↦
            let v : IsIpv4 frame = let h = ok.bytes 14 in ground arith in
            let unknown = unknown_proto (λ x. other (v, inl x)) (λ x. other (v, inr x)) in
            rw (read 14 (omega arith), p, read 23 (omega arith), unknown) refl
      ]

  -- Whatever a frame of at least 34 bytes holds that ends behind the place of the ports, `flowhash`
  -- returns, and within 64 bits.
  pub flowhash-lt : (h : ℕ) × (flowhash frame ≡ some h) × (h < 2 ^ 64)
  flowhash-lt = elim (IsFlow-cases frame) [
    | inl f ↦ (
      fnv_1 (flow_key frame),
      flowhash-flow_key f,
      unfold fnv_1 in
          fnv_1_multi-lt (flow_key frame) fnv_basis (key_bytes frame ok.bytes) (omega arith),
    )
    | inr n ↦ (0, flowhash-other n, omega arith)
  ]

  -- For a frame of at least 34 bytes, which ends behind the place of the ports, `get_udp_payload` of a
  -- UDP frame over IPv4 is the first byte behind the UDP header, which lies
  -- behind the options of the IPv4 header; of any other frame it is NULL.
  pub get_udp_payload_lem :
      (IsUdp frame × (get_udp_payload frame ≡ some (some (14 + header_len frame + 8))))
      ⊎ ((¬ IsUdp frame) × (get_udp_payload frame ≡ some none))
  unfolding get_udp_payload
  get_udp_payload_lem =
      let enough = ok.enough in
      let ports = ok.ports in
      let small = ok.bytes 14 in
      elim (Bool-cases (char_shr4 (byte frame 14) == 4)) [
        | inr p ↦ inr (
          λ u. let v : byte frame 14 / 16 ≡ 4 = u.0 in absurd (ground arith),
          rw (read 14 (omega arith), p) refl,
        )
        | inl p ↦
            let v : IsIpv4 frame = ground arith in
            elim (ℕ_discrete (byte frame 23) 17) [
              | yes u ↦ inl (
                (v, u),
                rw (read 14 (omega arith), is_four v, read 23 (omega arith), u)
                    (rw (low_bits (byte frame 14) small) (ap (λ x. some (some x)) (omega arith))),
              )
              | no u ↦ inr (
                λ e. u e.1,
                rw (read 14 (omega arith), p, read 23 (omega arith), ne→== (byte frame 23) 17 u)
                    refl,
              )
            ]
      ]

-- Two frames of at least 34 bytes, which end behind their ports, of the same TCP or UDP flow over
-- IPv4, have the same hash, whatever else they hold.
pub flowhash_affinity :
    (f g : List ℕ)
    → IsFrame f
    → IsFrame g
    → IsFlow f
    → IsFlow g
    → flow_key f ≡ flow_key g
    → flowhash f ≡ flowhash g
flowhash_affinity f g okf okg ff fg same =
    flowhash-flow_key f okf ff ∙ ap (λ k. some (fnv_1 k)) same ∙ sym (flowhash-flow_key g okg fg)
