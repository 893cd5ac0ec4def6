-- ===== src/Pktgen/Transmit/Bursts.antt =====
-- What a burst of frames of a sending core carries.
use net_blast.Base.{
  ℕ, zero, suc, ◌+◌, ◌*◌, ◌≤◌, ◌<◌, ◌≡◌, ◌⊎◌, refl, ap, ap₂, ◌∙◌, subst, arith, List, [], ◌∷◌, ◌++◌,
  length, take, none, some, All, not-ltb, u64,
}
use net_blast.Pktgen.{Globals, LcoreConf, headers_size, wire_overhead, burst_size}
use net_blast.Pktgen.Transmit.{TxState, TxInput, first_port, build_frames}
use net_blast.Pktgen.Transmit.Build.{IsBuilt, next, build_frame-IsBuilt}

-- the length of the frames
abbrev pub frame_len : Globals → ℕ
frame_len g = headers_size + g.payload_size

-- The payload sizes that the options leave.
abbrev pub IsPayload : Globals → Type 0
IsPayload g = (20 ≤ g.payload_size) × (g.payload_size ≤ 1400)

-- What the pool and the device may do: yield no buffers or 64 of them, and take some of the frames.
abbrev pub IsTxInput : Globals → TxInput → Type 0
IsTxInput g input =
    (input.buffers ≡ none)
    ⊎ ((buffers : List (List ℕ × ℕ)) × (input.buffers ≡ some buffers)
        × (length buffers ≡ burst_size)
        × (input.nb_tx ≤ burst_size)
        × All (λ b. length b.0 ≡ frame_len g) buffers)

module _ (cksum : List ℕ → ℕ) (g : Globals) (lcore_id : ℕ) (conf : LcoreConf) where
  -- A frame that the core built, with the number `n`.
  pub record IsNumbered (n : ℕ) (frame : List ℕ) : Type 0 where
    pub counter : ℕ
    pub timestamp : ℕ
    pub built : IsBuilt cksum g lcore_id conf counter (first_port lcore_id) (u64 n) timestamp frame
    pub sized : length frame ≡ frame_len g

  -- frames with the numbers from `n` on
  abbrev pub AreNumbered : ℕ → List (List ℕ) → Type 0
  AreNumbered n [] = Unit {0}
  AreNumbered n (frame ∷ frames) = IsNumbered n frame × AreNumbered (n + 1) frames

  pub take-AreNumbered :
      (m n : ℕ) (frames : List (List ℕ)) → AreNumbered n frames → AreNumbered n (take m frames)
  unfolding take
  take-AreNumbered zero n frames h = tt
  take-AreNumbered (suc m) n [] h = tt
  take-AreNumbered (suc m) n (frame ∷ frames) h = (h.0, take-AreNumbered m (n + 1) frames h.1)

  pub append-AreNumbered :
      (n : ℕ) (xs ys : List (List ℕ))
      → AreNumbered n xs
      → AreNumbered (n + length xs) ys
      → AreNumbered n (xs ++ ys)
  append-AreNumbered n [] ys h k = subst (λ m. AreNumbered m ys) (omega arith) k
  append-AreNumbered n (x ∷ xs) ys h k =
      (h.0, append-AreNumbered (n + 1) xs ys h.1 (subst (λ m. AreNumbered m ys) (omega arith) k))

  -- After `total` frames the counts are these.
  pub record IsTx (total : ℕ) (s : TxState) : Type 0 where
    pub pkts : s.local_pkts ≡ u64 total
    pub bytes : s.local_bytes ≡ u64 (total * (frame_len g + wire_overhead))
    pub port : s.client_port_counter ≡ first_port lcore_id

  module _ (six : length conf.port_mac ≡ 6) (known : lcore_id < 128) (payload : IsPayload g) where
    next-IsTx : {total : ℕ} {s : TxState} → IsTx total s → IsTx total (next cksum g lcore_id conf s)
    next-IsTx tx =
        let low : first_port lcore_id ≤ 65000 = omega arith in
        record {
          pkts = tx.pkts;
          bytes = tx.bytes;
          port = rw (tx.port, not-ltb 65000 (first_port lcore_id) low) refl;
        }

    pub build_frames-AreNumbered :
        (total i : ℕ) (s : TxState) (buffers : List (List ℕ × ℕ))
        → IsTx total s
        → All (λ b. length b.0 ≡ frame_len g) buffers
        → (frames : List (List ℕ)) × (s' : TxState) × (build_frames cksum g lcore_id conf s i
              buffers
            ≡ some (frames, s'))
          × IsTx total s'
          × AreNumbered (total + i) frames
          × (length frames ≡ length buffers)
    unfolding build_frames
    build_frames-AreNumbered total i s [] tx h = ([], s, refl, tx, tt, refl)
    build_frames-AreNumbered total i s ((memory, stamp) ∷ buffers) tx h =
        let (frame, e, built, same) =
          build_frame-IsBuilt cksum g lcore_id conf six s i memory stamp (omega (arith, h.0)) in
        let (frames, s', e', tx', numbered, len) =
          build_frames-AreNumbered total (i + 1) (next cksum g lcore_id conf s) buffers
            (next-IsTx tx) h.1 in
        let number : u64 (s.local_pkts + i) ≡ u64 (total + i) = omega (arith, tx.pkts) in
        (
          frame ∷ frames,
          s',
          rw (e, e') refl,
          tx',
          (
            record {
              counter = s.client_ip_counter;
              timestamp = stamp;
              built =
                  subst
                    (λ (p : ℕ × ℕ).
                      IsBuilt cksum g lcore_id conf s.client_ip_counter p.0 p.1 stamp frame)
                    (ap₂ (λ p n. (p, n)) tx.port number) built;
              sized = same ∙ h.0;
            },
            subst (λ n. AreNumbered n frames) (omega arith) numbered,
          ),
          ap suc len,
        )
