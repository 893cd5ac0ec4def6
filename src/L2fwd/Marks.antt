-- ===== src/L2fwd/Marks.antt =====
-- What a burst leaves in the frames and in the counters `fwded` and `unmapped`, said of the MAC that
-- each frame has, and that the mode `maglev` does so.
use net_blast.Base.{
  ◌∙◌, ℕ, ◌+◌, ◌-◌, ◌%◌, ◌^◌, ◌≤◌, ◌≡◌, ◌≢◌, ◌⊎◌, ◌==◌, refl, arith, List, [], ◌∷◌, length,
  get_elem?, Option, some, none, u64, Bool-cases, if◌then◌else◌, inl, inr, ne→==,
}
use native.Mathlib.Decide.{ℕ_discrete}
use net_blast.PacketTool.{flowhash}
use net_blast.Conshash.Fill.{mac_of}
use net_blast.L2fwd.{PortStatistics, l2fwd_mac_updating, mark_frame}
use net_blast.L2fwd.Mac.{mac_updating-runs}

-- The MAC of a frame under the bindings of a table: that of its flow, 0 if it has none.
abbrev pub mac_for : (ℕ → Option ℕ) → List ℕ → ℕ
mac_for bound frame = elim (flowhash frame) [
  | none ↦ 0
  | some h ↦ if h == 0 then 0 else mac_of (bound h)
]

-- how many of the frames have a MAC other than 0
abbrev pub forwarded : (List ℕ → ℕ) → List (List ℕ) → ℕ
forwarded mac [] = 0
forwarded mac (frame ∷ frames) = (if mac frame == 0 then 0 else 1) + forwarded mac frames

pub forwarded-le :
    (mac : List ℕ → ℕ) (frames : List (List ℕ)) → forwarded mac frames ≤ length frames
forwarded-le mac [] = omega arith
forwarded-le mac (frame ∷ frames) =
    let rest = forwarded-le mac frames in
    elim (Bool-cases (mac frame == 0)) [
      | inl p ↦ rw p (omega (arith, rest))
      | inr p ↦ rw p (omega (arith, rest))
    ]

-- the counters that a mode does not touch
abbrev pub without_marks : PortStatistics → PortStatistics
without_marks s = record s { fwded = 0; unmapped = 0 }

-- Of `n` frames `f` were counted as forwarded, and the others as unmapped.
pub record Counts (n f : ℕ) (s s' : PortStatistics) : Type 0 where
  pub few : f ≤ n
  pub fwded : s'.fwded % 2 ^ 64 ≡ u64 (s.fwded + f)
  pub unmapped : s'.unmapped % 2 ^ 64 ≡ u64 (s.unmapped + (n - f))
  pub others : without_marks s' ≡ without_marks s

pub Counts-trans :
    {n f m g : ℕ} {s s' s'' : PortStatistics}
    → Counts n f s s'
    → Counts m g s' s''
    → Counts (n + m) (f + g) s s''
Counts-trans a b = record {
  few = omega (arith, a.few, b.few);
  fwded = omega (arith, a.fwded, b.fwded);
  unmapped = omega (arith, a.unmapped, b.unmapped, a.few, b.few);
  others = b.others ∙ a.others;
}

module _ (addrs : List (List ℕ)) (dst_port : ℕ) where
  -- A frame with the MAC 0 stays; any other has its MACs updated.
  abbrev pub IsMarked : ℕ → List ℕ → List ℕ → Type 0
  IsMarked mac frame frame' =
      ((mac ≡ 0) × (frame' ≡ frame))
      ⊎ ((mac ≢ 0) × (l2fwd_mac_updating addrs frame dst_port mac ≡ some frame'))

  -- Every frame of a burst, with the MAC that it has.
  abbrev pub AreMarked : (List ℕ → ℕ) → List (List ℕ) → List (List ℕ) → Type 0
  AreMarked mac [] [] = Unit {0}
  AreMarked mac [] (frame' ∷ frames') = ⊥
  AreMarked mac (frame ∷ frames) [] = ⊥
  AreMarked mac (frame ∷ frames) (frame' ∷ frames') =
      IsMarked (mac frame) frame frame' × AreMarked mac frames frames'

  module _ (crc : ℕ → ℕ) {addr : List ℕ} (known : get_elem? addrs dst_port ≡ some addr)
      (six : length addr ≡ 6) where
    pub mark_frame-Counts :
        (s : PortStatistics) (frame : List ℕ) (mac : ℕ)
        → 12 ≤ length frame
        → (s' : PortStatistics) × (frame' : List ℕ) × (mark_frame crc addrs dst_port s frame mac
            ≡ some (s', frame'))
          × IsMarked mac frame frame'
          × Counts 1 (if mac == 0 then 0 else 1) s s'
    unfolding mark_frame
    mark_frame-Counts s frame mac long = elim (ℕ_discrete mac 0) [
      | yes z ↦ (
        record s { unmapped = u64 (s.unmapped + 1) },
        frame,
        rw z refl,
        inl (z, refl),
        rw z (record {
          few = omega arith;
          fwded = omega arith;
          unmapped = omega arith;
          others = refl;
        }),
      )
      | no ne ↦
          let (frame', e, _) = mac_updating-runs addrs frame dst_port mac long known six in
          (
            record s { fwded = u64 (s.fwded + 1) },
            frame',
            rw (ne→== mac 0 ne, e) refl,
            inr (ne, e),
            rw (ne→== mac 0 ne) (record {
              few = omega arith;
              fwded = omega arith;
              unmapped = omega arith;
              others = refl;
            }),
          )
    ]
