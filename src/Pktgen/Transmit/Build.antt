-- ===== src/Pktgen/Transmit/Build.antt =====
-- What stands in a frame that the generator built.
use net_blast.Base.{
  ℕ, ◌+◌, ◌≤◌, ◌≡◌, refl, ◌∙◌, arith, List, [], ◌∷◌, ◌++◌, length, replicate, some, if◌then◌else◌,
  ltb, u32, u64,
}
use net_blast.Buffer.{low_bytes}
use net_blast.Buffer.Reads.{slice, slice-start}
use net_blast.Buffer.Stores.{store_bytes-IsStored}
use net_blast.Pktgen.{Globals, LcoreConf, packet_id_at, timestamp_at, metadata_end}
use net_blast.Pktgen.Transmit.{be16, be32, server_ip, TxState, current_ip, frame_head, build_frame}

six_bytes : (xs : List ℕ) → length xs ≡ 6 → (a b c d e f : ℕ) × (xs ≡ a ∷ b ∷ c ∷ d ∷ e ∷ f ∷ [])
six_bytes (a ∷ b ∷ c ∷ d ∷ e ∷ f ∷ []) h = (a, b, c, d, e, f, refl)
six_bytes [] h = absurd (omega arith)
six_bytes (a ∷ []) h = absurd (omega arith)
six_bytes (a ∷ b ∷ []) h = absurd (omega arith)
six_bytes (a ∷ b ∷ c ∷ []) h = absurd (omega arith)
six_bytes (a ∷ b ∷ c ∷ d ∷ []) h = absurd (omega arith)
six_bytes (a ∷ b ∷ c ∷ d ∷ e ∷ []) h = absurd (omega arith)
six_bytes (a ∷ b ∷ c ∷ d ∷ e ∷ f ∷ g ∷ xs) h = absurd (omega arith)

module _ (cksum : List ℕ → ℕ) (g : Globals) (lcore_id : ℕ) (conf : LcoreConf) where
  -- The frame starts with the headers and the metadata that belong to these values.
  pub record IsBuilt (counter port packet_id timestamp : ℕ) (frame : List ℕ) : Type 0 where
    pub enough : metadata_end ≤ length frame
    pub start :
        slice frame 0 metadata_end
        ≡ frame_head cksum g lcore_id conf counter port packet_id timestamp

  -- What the receivers of a frame read of it.
  pub record Fields (counter port id timestamp : ℕ) (frame : List ℕ) : Type 0 where
    pub ether_type : slice frame 12 2 ≡ be16 0x0800
    pub version_ihl : slice frame 14 1 ≡ 0x45 ∷ []
    pub next_proto_id : slice frame 23 1 ≡ 17 ∷ []
    pub addresses :
        slice frame 26 8 ≡ be32 (current_ip cksum g lcore_id conf counter) ++ be32 server_ip
    pub ports : slice frame 34 4 ≡ be16 port ++ be16 80
    pub packet_id : slice frame packet_id_at 8 ≡ low_bytes 8 id
    pub tx_timestamp : slice frame timestamp_at 8 ≡ low_bytes 8 timestamp

  -- the local variables after the frame number `i` of a burst
  abbrev pub next : TxState → TxState
  next s = record s {
    client_ip_counter = u32 (s.client_ip_counter + 1);
    client_port_counter = if ltb 65000 s.client_port_counter then 1025 else s.client_port_counter;
  }

  module _ (six : length conf.port_mac ≡ 6) where
    head-length :
        (counter port packet_id timestamp : ℕ)
        → length (frame_head cksum g lcore_id conf counter port packet_id timestamp) ≡ metadata_end
    unfolding frame_head replicate
    head-length counter port packet_id timestamp =
        let (a, b, c, d, e, f, mac) = six_bytes conf.port_mac six in rw mac refl

    pub build_frame-IsBuilt :
        (s : TxState) (i : ℕ) (memory : List ℕ) (timestamp : ℕ)
        → metadata_end ≤ length memory
        → (frame : List ℕ) × (build_frame cksum g lcore_id conf s i memory timestamp
            ≡ some (frame, next s))
          × IsBuilt s.client_ip_counter s.client_port_counter
              (u64 (s.local_pkts + i))
              timestamp
              frame
          × (length frame ≡ length memory)
    unfolding build_frame
    build_frame-IsBuilt s i memory timestamp room =
        let len =
          head-length s.client_ip_counter s.client_port_counter (u64 (s.local_pkts + i))
            timestamp in
        let (frame, e, r) =
          store_bytes-IsStored
            (frame_head cksum g lcore_id conf s.client_ip_counter s.client_port_counter
              (u64 (s.local_pkts + i)) timestamp)
            memory 0 (omega arith) in
        (
          frame,
          rw e refl,
          record { enough = omega (arith, r.sized); start = rw len at r.there },
          r.sized,
        )

    module _ {counter port packet_id timestamp : ℕ} {frame : List ℕ}
        (built : IsBuilt counter port packet_id timestamp frame) where
      abbrev head : List ℕ
      head = frame_head cksum g lcore_id conf counter port packet_id timestamp

      -- A field of the frame is that field of what was written.
      field :
          (n at : ℕ) {w : List ℕ}
          → at + n ≤ metadata_end
          → slice head at n ≡ w
          → slice frame at n ≡ w
      field n at within e =
          let len = head-length counter port packet_id timestamp in
          slice-start frame head n at (rw len built.start) (omega arith) ∙ e

      -- The fields of a frame that was built.
      pub fields : Fields counter port packet_id timestamp frame
      unfolding frame_head replicate
      fields =
          let (a, b, c, d, e, f, mac) = six_bytes conf.port_mac six in
          record {
            ether_type = field 2 12 (omega arith) (rw mac refl);
            version_ihl = field 1 14 (omega arith) (rw mac refl);
            next_proto_id = field 1 23 (omega arith) (rw mac refl);
            addresses = field 8 26 (omega arith) (rw mac refl);
            ports = field 4 34 (omega arith) (rw mac refl);
            packet_id = field 8 packet_id_at (omega arith) (rw mac refl);
            tx_timestamp = field 8 timestamp_at (omega arith) (rw mac refl);
          }
