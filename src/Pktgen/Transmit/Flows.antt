-- ===== src/Pktgen/Transmit/Flows.antt =====
-- The flows of the frames that the generator builds, as l2fwd/libsashstore/packettool.c sees them.
use native.Mathlib.Nat.{mod-lt, one-le-pow, pow-le-pow_right}
use net_blast.Base.{
  ℕ, ◌+◌, ◌-◌, ◌*◌, ◌^◌, ◌≤◌, ◌<◌, ◌≡◌, ◌↔◌, inr, ap, ap₂, ◌∙◌, sym, arith, List, [], ◌∷◌, ◌++◌,
  length, some, bit_and, bit_and_mask, u32,
}
use net_blast.Buffer.Reads.{byte, slice}
use net_blast.Fnv.{fnv_1}
use net_blast.PacketTool.{flowhash}
use net_blast.PacketTool.Flow.{IsFrame, IsFlow, flow_key, header_len, flowhash-flow_key}
use net_blast.Pktgen.{Globals, LcoreConf}
use net_blast.Pktgen.Transmit.{be16, be32, base_ip, server_ip, first_port, current_ip}
use net_blast.Pktgen.Transmit.Build.{IsBuilt, Fields, fields}

-- The masks that the option -r sets: a power of two below 2 ^ 31, less one.
pub record IsMask (mask : ℕ) : Type 0 where
  pub exponent : ℕ
  pub small : exponent ≤ 30
  pub power : mask ≡ 2 ^ exponent - 1

mask_bound : {mask : ℕ} → IsMask mask → (c : ℕ) → bit_and c mask < 2 ^ 30
mask_bound {mask} m c =
    let low = one-le-pow m.exponent 2 (omega arith) in
    let high = pow-le-pow_right {n = 2} (omega arith) m.small in
    let rest = mod-lt c {m = 2 ^ m.exponent} (omega arith) in
    rw m.power (omega (arith, bit_and_mask m.exponent c))

head_of : {x y : ℕ} {xs ys : List ℕ} → x ∷ xs ≡ y ∷ ys → x ≡ y
head_of e = cc

tail_of : {x y : ℕ} {xs ys : List ℕ} → x ∷ xs ≡ y ∷ ys → xs ≡ ys
tail_of e = cc

be32_injective :
    (x y : ℕ) {xs ys : List ℕ} → x < 2 ^ 32 → y < 2 ^ 32 → be32 x ++ xs ≡ be32 y ++ ys → x ≡ y
be32_injective x y p q e = omega (
  arith,
  head_of e,
  head_of (tail_of e),
  head_of (tail_of (tail_of e)),
  head_of (tail_of (tail_of (tail_of e))),
)

-- The addresses, the protocol and the ports of the core `lcore_id` for the client `client`.
abbrev tuple : ℕ → ℕ → List ℕ
tuple lcore_id client =
    (be32 (u32 (base_ip lcore_id + client)) ++ be32 server_ip)
    ++ ((17 ∷ []) ++ (be16 (first_port lcore_id) ++ be16 80))

module _ (cksum : List ℕ → ℕ) (g : Globals) where
  -- The frame is one that the core `lcore_id` built while its counter of clients was `counter`.
  pub record IsOf (lcore_id : ℕ) (conf : LcoreConf) (counter : ℕ) (frame : List ℕ) : Type 0 where
    pub packet_id : ℕ
    pub timestamp : ℕ
    pub six : length conf.port_mac ≡ 6
    pub built :
        IsBuilt cksum g lcore_id conf counter (first_port lcore_id) packet_id timestamp frame
    pub bytes : (i : ℕ) → byte frame i < 2 ^ 8

  module _ {lcore_id : ℕ} {conf : LcoreConf} {counter : ℕ} {frame : List ℕ}
      (of : IsOf lcore_id conf counter frame) where
    parts :
        Fields cksum g lcore_id conf counter (first_port lcore_id) of.packet_id of.timestamp frame
    parts = fields cksum g lcore_id conf of.six of.built

    version : byte frame 14 ≡ 0x45
    version = head_of parts.version_ihl

    no_options : header_len frame ≡ 20
    no_options = omega (arith, version)

    of-IsFrame : IsFrame frame
    of-IsFrame = record {
      bytes = of.bytes;
      enough = omega (arith, of.built.enough);
      ports = omega (arith, of.built.enough, no_options);
    }

    of-IsFlow : IsFlow frame
    of-IsFlow = (omega (arith, version), inr (head_of parts.next_proto_id))

    of-flow_key : flow_key frame ≡ tuple lcore_id (bit_and counter g.ip_mask)
    of-flow_key =
        ap₂ (λ x y. x ++ y) parts.addresses
          (ap₂ (λ x y. x ++ y) parts.next_proto_id
            (ap (λ h. slice frame (14 + h) 4) no_options ∙ parts.ports))

  -- Of the frames of two cores below 128, with a mask that -r sets, each has the FNV-1 hash of its
  -- flow, and the flows are the same only if the frames are of the same core, and of the same of
  -- the clients that the mask tells apart.
  pub flows_of_clients :
      {a b : ℕ} {conf conf' : LcoreConf} {c d : ℕ} {f f' : List ℕ}
      → IsMask g.ip_mask
      → a < 128
      → b < 128
      → IsOf a conf c f
      → IsOf b conf' d f'
      → (flowhash f ≡ some (fnv_1 (flow_key f)))
        × ((flow_key f ≡ flow_key f') ↔ ((a ≡ b) × (bit_and c g.ip_mask ≡ bit_and d g.ip_mask)))
  flows_of_clients {a} {b} {conf} {conf'} {c} {d} {f} {f'} mask pa pb of of' = (
    flowhash-flow_key f (of-IsFrame of) (of-IsFlow of),
    (
      λ e.
          let same : tuple a (bit_and c g.ip_mask) ≡ tuple b (bit_and d g.ip_mask) =
            sym (of-flow_key of) ∙ e ∙ of-flow_key of' in
          let mc = mask_bound mask c in
          let md = mask_bound mask d in
          let ip =
            be32_injective (current_ip cksum g a conf c) (current_ip cksum g b conf' d)
              (omega arith) (omega arith) same in
          let ports = ap (λ xs. byte xs 9 * 256 + byte xs 10) same in
          let core : a ≡ b = omega arith in (core, omega arith),
      λ e. of-flow_key of ∙ ap₂ tuple e.0 e.1 ∙ sym (of-flow_key of'),
    ),
  )
