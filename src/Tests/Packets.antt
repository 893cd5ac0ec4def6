-- ===== src/Tests/Packets.antt =====
-- Frames of 98 bytes.
use native.Mathlib.Nat.{mod-lt}
use net_blast.Base.{
  ℕ, zero, suc, ◌+◌, ◌*◌, ◌%◌, ◌/◌, ◌≡◌, ◌≢◌, ◌<◌, ◌^◌, ◌≤◌, ◌⊎◌, inl, inr, refl, arith, List, [],
  ◌∷◌, ◌++◌, length, Option, some, none, replicate, get_or,
}
use net_blast.Fnv.{fnv_1}
use net_blast.Fnv.Bijection.{AreBytes}
use net_blast.Tests.Setup.{byte-lt}
use net_blast.PacketTool.{flowhash, get_udp_payload}
use net_blast.PacketTool.Flow.{
  IsFrame, IsFlow, IsUdp, flow_key, header_len, flowhash-flow_key, get_udp_payload_lem,
  AreBytes-append,
}
use net_blast.Conshash.{populate_lut}
use net_blast.Conshash.Fill.{backend, populate_lut-backend}

replicate-AreBytes : (n b : ℕ) → b < 2 ^ 8 → AreBytes (replicate n b)
unfolding replicate
replicate-AreBytes zero b h = tt
replicate-AreBytes (suc n) b h = (h, replicate-AreBytes n b h)

-- an Ethernet header, the first byte of an IPv4 header, its protocol, and the rest
abbrev frame_of : ℕ → ℕ → ℕ → List ℕ
frame_of first proto rest =
    replicate 14 0 ++ (first ∷ (replicate 8 7 ++ (proto ∷ replicate 74 rest)))

frame_of-IsFrame :
    (first proto rest : ℕ)
    → first < 2 ^ 8
    → proto < 2 ^ 8
    → rest < 2 ^ 8
    → IsFrame (frame_of first proto rest)
unfolding replicate
frame_of-IsFrame first proto rest p q r = record {
  bytes = byte-lt (frame_of first proto rest) (
      AreBytes-append (replicate 14 0) (first ∷ (replicate 8 7 ++ (proto ∷ replicate 74 rest)))
        (replicate-AreBytes 14 0 (omega arith))
        (
          p,
          AreBytes-append (replicate 8 7) (proto ∷ replicate 74 rest)
              (replicate-AreBytes 8 7 (omega arith)) (q, replicate-AreBytes 74 rest r),
        ));
  enough = omega arith;
  ports = let l = mod-lt first {m = 16} (omega arith) in omega arith;
}

abbrev pub udp : List ℕ
udp = frame_of 0x46 17 200

abbrev pub arp : List ℕ
arp = frame_of 0 17 200

pub udp-IsFrame : IsFrame udp
udp-IsFrame = frame_of-IsFrame 0x46 17 200 (omega arith) (omega arith) (omega arith)

pub arp-IsFrame : IsFrame arp
arp-IsFrame = frame_of-IsFrame 0 17 200 (omega arith) (omega arith) (omega arith)

pub udp-IsFlow : IsFlow udp
unfolding replicate
udp-IsFlow = (refl, inr refl)

not-IsFlow : ¬ IsFlow arp
unfolding replicate
not-IsFlow (v, _) = absurd (omega arith)

flowhash-flow_key_example : flowhash udp ≡ some (fnv_1 (flow_key udp))
flowhash-flow_key_example = flowhash-flow_key udp udp-IsFrame udp-IsFlow

get_udp_payload_lem_example :
    (IsUdp udp × (get_udp_payload udp ≡ some (some (14 + header_len udp + 8))))
    ⊎ ((¬ IsUdp udp) × (get_udp_payload udp ≡ some none))
get_udp_payload_lem_example = get_udp_payload_lem udp udp-IsFrame

populate_lut-backend_example :
    (length (populate_lut (replicate 65537 0)) ≡ 65537)
    × (70000 % 65537 < length (populate_lut (replicate 65537 0)))
    × (backend (populate_lut (replicate 65537 0)) 70000 ≡ 0xff)
populate_lut-backend_example =
    populate_lut-backend (replicate 65537 0) 70000 (net_blast.Base.length-replicate 65537 0)
