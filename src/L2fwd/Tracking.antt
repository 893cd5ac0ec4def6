-- ===== src/L2fwd/Tracking.antt =====
-- A burst in the mode `maglev`.
use native.Mathlib.Decide.{ℕ_discrete}
use net_blast.Base.{
  ap, ◌∙◌, subst, sym, ℕ, suc, ◌+◌, ◌≤◌, ◌≡◌, ◌≢◌, ◌⊎◌, ◌==◌, refl, arith, List, [], ◌∷◌, length,
  get_elem?, Option-cases, some, none, inl, inr, ne→==, if◌then◌else◌,
}
use net_blast.Capacity.{IsCapacity}
use net_blast.WordTable.Insertion.{bound-IsFull}
use net_blast.Hashmap.{home}
use net_blast.PacketTool.Flow.{IsFrame, flowhash-lt}
use net_blast.Conshash.Fill.{mac_of}
use net_blast.Maglev.{Maglev, maglev_process_frame}
use net_blast.Maglev.Frames.{
  IsMaglev, IsRefused, tracked, process_frame-Processes, process_frame_zero,
}
use net_blast.Maglev.Affinity.{AreFrames, KeepsFlows}
use net_blast.L2fwd.{PortStatistics, maglev_burst}
use net_blast.L2fwd.Marks.{
  mac_for, forwarded, Counts, Counts-trans, IsMarked, AreMarked, mark_frame-Counts,
}

module _ (crc : ℕ → ℕ) {capacity : ℕ} (valid : IsCapacity capacity) where
  -- What later frames keep: the tracked flows, and for which flows the table is full.
  pub record Keeps (m m' : Maglev) : Type 0 where
    pub flows : KeepsFlows crc valid m m'
    pub refused : (q : ℕ) → IsRefused crc valid m q → IsRefused crc valid m' q

  Keeps-trans : {m m' m'' : Maglev} → Keeps m m' → Keeps m' m'' → Keeps m m''
  Keeps-trans a b = record {
    flows = λ q v ne k. b.flows q v ne (a.flows q v ne k);
    refused = λ q full. b.refused q (a.refused q full);
  }

  -- A flow that is tracked, or for which the table is full.
  abbrev IsSettled : Maglev → ℕ → Type 0
  IsSettled m q = ((v : ℕ) × (tracked crc valid m q ≡ some v)) ⊎ IsRefused crc valid m q

  refused_none :
      (m : Maglev)
      → IsMaglev crc valid m
      → (q : ℕ) → q ≢ 0
      → IsRefused crc valid m q
      → tracked crc valid m q ≡ none
  refused_none m ok q ne full = elim (Option-cases (tracked crc valid m q)) [
    | inl h ↦ h
    | inr (v, h) ↦ absurd (bound-IsFull capacity (home crc capacity) m.conntrack ok.map q ne h full)
  ]

  -- The binding of a settled flow is final.
  settled-same :
      {m m' : Maglev}
      → IsMaglev crc valid m
      → IsMaglev crc valid m'
      → Keeps m m'
      → (q : ℕ) → q ≢ 0
      → IsSettled m q
      → tracked crc valid m' q ≡ tracked crc valid m q
  settled-same {m} {m'} ok ok' keeps q ne (inl (v, h)) = keeps.flows q v ne h ∙ sym h
  settled-same {m} {m'} ok ok' keeps q ne (inr full) =
      refused_none m' ok' q ne (keeps.refused q full) ∙ sym (refused_none m ok q ne full)

  -- The MAC that is returned for a frame is that of its flow, after it and after all later frames.
  frame-mac :
      (m : Maglev)
      → IsMaglev crc valid m
      → (frame : List ℕ) → IsFrame frame
      → (mac : ℕ) × (m1 : Maglev) × (maglev_process_frame crc capacity m frame ≡ some (mac, m1))
        × IsMaglev crc valid m1
        × Keeps m m1
        × ((m' : Maglev)
            → IsMaglev crc valid m'
            → Keeps m1 m'
            → mac ≡ mac_for (tracked crc valid m') frame)
  frame-mac m ok frame okf =
      let (h, hashed, _) = flowhash-lt frame okf in
      elim (ℕ_discrete h 0) [
        | yes z ↦ (
          0,
          m,
          process_frame_zero crc valid m frame (hashed ∙ ap some z),
          ok,
          record { flows = λ q v ne k. k; refused = λ q full. full },
          λ m' ok' keeps. rw (mac_for, hashed, z) refl,
        )
        | no ne ↦
            let (mac, m1, e, r) = process_frame-Processes crc valid m ok frame h hashed ne in
            (
              mac,
              m1,
              e,
              r.state,
              record {
                flows = λ q v q_ne known. elim (r.tracks q q_ne) [
                  | inl same ↦ same ∙ known
                  | inr (_, fresh, _) ↦ absurd (cc)
                ];
                refused = r.stays_full;
              },
              λ m' ok' keeps.
                  rw (mac_for, hashed, ne→== h 0 ne)
                    (r.answers
                      ∙ ap mac_of (sym (settled-same r.state ok' keeps h ne r.bound_or_full))),
            )
      ]

  module _ (addrs : List (List ℕ)) (dst_port : ℕ) {addr : List ℕ}
      (known : get_elem? addrs dst_port ≡ some addr) (six : length addr ≡ 6) where
    -- In the mode `maglev` a burst of frames, each long enough for the headers that the code reads,
    -- is processed without an access out of range, where the port has an address. Each frame has the
    -- MAC of its flow's binding afterwards, 0 if there is none. A frame whose MAC is not 0 has its MACs
    -- updated and is counted as forwarded; any other stays and is counted as unmapped. The connection
    -- table stays in order, and the tracked flows keep their backends.
    pub maglev_burst-Counts :
        (frames : List (List ℕ)) (m : Maglev) (s : PortStatistics)
        → AreFrames frames
        → IsMaglev crc valid m
        → (m' : Maglev) × (s' : PortStatistics) × (frames' : List (List ℕ)) × (maglev_burst crc
              addrs dst_port capacity m s frames
            ≡ some (m', s', frames'))
          × IsMaglev crc valid m'
          × Keeps m m'
          × AreMarked addrs dst_port (mac_for (tracked crc valid m')) frames frames'
          × Counts (length frames) (forwarded (mac_for (tracked crc valid m')) frames) s s'
    unfolding maglev_burst
    maglev_burst-Counts [] m s h ok = (
      m,
      s,
      [],
      refl,
      ok,
      record { flows = λ q v ne k. k; refused = λ q full. full },
      tt,
      record { few = omega arith; fwded = omega arith; unmapped = omega arith; others = refl },
    )
    maglev_burst-Counts (frame ∷ frames) m s h ok =
        let (mac, m1, ran, ok1, kept1, final) = frame-mac m ok frame h.0 in
        let long : 12 ≤ length frame = let l = h.0.enough in omega arith in
        let (s1, frame', marked, written, one) =
          mark_frame-Counts addrs dst_port crc known six s frame mac long in
        let (m2, s2, frames', rest, ok2, kept2, all_written, all) =
          maglev_burst-Counts frames m1 s1 h.1 ok1 in
        let is_mac = final m2 ok2 kept2 in
        (
          m2,
          s2,
          frame' ∷ frames',
          rw (ran, marked, rest) refl,
          ok2,
          Keeps-trans kept1 kept2,
          (subst (λ x. IsMarked addrs dst_port x frame frame') is_mac written, all_written),
          subst
              (λ x.
                Counts (suc (length frames))
                  ((if x == 0 then 0 else 1) + forwarded (mac_for (tracked crc valid m2)) frames) s
                  s2)
              is_mac
              (subst
                (λ n.
                  Counts n
                    ((if mac == 0 then 0 else 1)
                      + forwarded (mac_for (tracked crc valid m2)) frames)
                    s s2)
                (omega arith) (Counts-trans one all)),
        )
