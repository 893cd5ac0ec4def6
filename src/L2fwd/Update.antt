-- ===== src/L2fwd/Update.antt =====
-- The last loop of the mode `dramblast`, over the frames that have an argument.
use native.Mathlib.Decide.{ℕ_discrete}
use native.Mathlib.Nat.{add-zero}
use mathlib.Core.List.{append_assoc}
use net_blast.Base.{
  ◌++◌, ap, Option, ◌==◌, nat_eq, ne→==, lt→ltb, All, if◌then◌else◌, ℕ, ◌+◌, ◌≤◌, ◌≡◌, ◌∙◌, ◌>>=◌,
  inl, inr, refl, sym, arith, List, [], ◌∷◌, length, length-append, ap₂, get_elem?,
  get_elem?-eq-get_or, get_or, set, some,
}
use net_blast.Conshash.Fill.{mac_of}
use net_blast.Maglev.Affinity.{AreFrames}
use net_blast.Dramblast.{Arg}
use net_blast.L2fwd.{update_frames}
use net_blast.L2fwd.Mac.{mac_updating-runs}
use net_blast.L2fwd.Marks.{mac_for, forwarded, IsMarked, AreMarked}
use net_blast.L2fwd.Collect.{IsCollected, AreCounted}

frame_behind :
    (before : List (List ℕ)) (frame : List ℕ) (rest : List (List ℕ))
    → get_elem? (before ++ (frame ∷ rest)) (length before) ≡ some frame
frame_behind [] frame rest = refl
frame_behind (x ∷ before) frame rest = frame_behind before frame rest

set_behind :
    (before : List (List ℕ)) (frame frame' : List ℕ) (rest : List (List ℕ))
    → set (before ++ (frame ∷ rest)) (length before) frame' ≡ before ++ (frame' ∷ rest)
set_behind [] frame frame' rest = refl
set_behind (x ∷ before) frame frame' rest = ap (λ l. x ∷ l) (set_behind before frame frame' rest)

module _ (crc : ℕ → ℕ) (addrs : List (List ℕ)) (dst_port : ℕ) {addr : List ℕ}
    (known : get_elem? addrs dst_port ≡ some addr) (six : length addr ≡ 6) (bound : ℕ → Option ℕ)
    (macs : List ℕ) where
  -- what the array of MACs is to hold for an argument
  abbrev pub HasMac : Arg → Type 0
  HasMac arg = get_or macs arg.id 0 ≡ mac_of (bound arg.k)

  -- The last loop writes the MACs of the frames, whose arguments were collected, and counts those
  -- that have one.
  abbrev pub Updates : List (List ℕ) → List (List ℕ) → List ℕ → ℕ → ℕ → Type 0
  Updates before frames numbers fn found =
      (frames' : List (List ℕ)) × (update_frames crc addrs dst_port numbers fn macs
          (before ++ frames) found
        ≡ some (before ++ frames', found + forwarded (mac_for bound) frames))
      × AreMarked addrs dst_port (mac_for bound) frames frames'

  -- A frame that is done, in front of those that follow.
  behind :
      (before : List (List ℕ)) (frame frame' : List ℕ) (frames : List (List ℕ)) (numbers : List ℕ)
      (fn found counted : ℕ)
      → IsMarked addrs dst_port (mac_for bound frame) frame frame'
      → counted ≡ (if mac_for bound frame == 0 then 0 else 1)
      → Updates (before ++ (frame' ∷ [])) frames numbers fn (found + counted)
      → (frames' : List (List ℕ)) × (update_frames crc addrs dst_port numbers fn macs
            (before ++ (frame' ∷ frames))
            (found + counted)
          ≡ some (before ++ frames', found + forwarded (mac_for bound) (frame ∷ frames)))
        × AreMarked addrs dst_port (mac_for bound) (frame ∷ frames) frames'
  behind before frame frame' frames numbers fn found counted marked is_counted (rest', e, all) = (
    frame' ∷ rest',
    ap (λ l. update_frames crc addrs dst_port numbers fn macs l (found + counted))
          (sym (append_assoc before (frame' ∷ []) frames))
        ∙ e
        ∙ ap₂ (λ l n. some (l, n)) (append_assoc before (frame' ∷ []) rest')
            (omega (arith, is_counted)),
    (marked, all),
  )

  pub update_frames-Updates :
      {frames : List (List ℕ)} {j fn : ℕ} {args : List Arg} {numbers : List ℕ}
      → IsCollected frames j fn args numbers
      → AreFrames frames
      → fn + length args ≤ length macs
      → All HasMac args
      → AreCounted fn args
      → (before : List (List ℕ)) (found : ℕ) → length before ≡ j
      → Updates before frames numbers fn found
  unfolding update_frames
  update_frames-Updates (IsCollected.at_end j fn) h room has ids before found here =
      ([], ap (λ n. some (before ++ [], n)) (omega arith), tt)
  update_frames-Updates (IsCollected.without_hash frame frames j fn args numbers hashed rest) h room
        has ids before found here =
      let no_mac : mac_for bound frame ≡ 0 = rw (mac_for, hashed) refl in
      let u =
        update_frames-Updates rest h.1 room has ids (before ++ (frame ∷ [])) (found + 0)
          (omega (arith, length-append before (frame ∷ []), here)) in
      let (frames', e, all) =
        behind before frame frame frames numbers fn found 0 (inl (no_mac, refl)) (rw no_mac refl)
          u in
      (frames', rw add-zero at e, all)
  update_frames-Updates (IsCollected.with_hash frame frames j fn k args numbers hashed ne rest) h
        room has ids before found here =
      let mac = get_or macs fn 0 in
      let read = get_elem?-eq-get_or macs fn 0 (omega arith) in
      let is_mac : mac_for bound frame ≡ mac = rw (mac_for, hashed, ne→== k 0 ne) (sym has.0) in
      let u : (frame' : List ℕ) (counted : ℕ)
          → Updates (before ++ (frame' ∷ [])) frames numbers (fn + 1) (found + counted) =
        λ frame' counted.
          update_frames-Updates rest h.1 (omega arith) has.1 ids.1 (before ++ (frame' ∷ []))
            (found + counted) (omega (arith, length-append before (frame' ∷ []), here)) in
      elim (ℕ_discrete mac 0) [
        | yes z ↦
            let none_for = is_mac ∙ z in
            let (frames', e, all) =
              behind before frame frame frames numbers (fn + 1) found 0 (inl (none_for, refl))
                (rw none_for refl) (u frame 0) in
            (frames', rw (read, z) (rw add-zero at e), all)
        | no mac_ne ↦
            let long : 12 ≤ length frame = let l = h.0.enough in omega arith in
            let (frame', written, _) = mac_updating-runs addrs frame dst_port mac long known six in
            let (frames', e, all) =
              behind before frame frame' frames numbers (fn + 1) found 1
                (inr (rw is_mac mac_ne, rw is_mac written)) (rw (is_mac, ne→== mac 0 mac_ne) refl)
                (u frame' 1) in
            (
              frames',
              rw
                  (
                    read,
                    ◌>>=◌,
                    lt→ltb 0 mac (omega arith),
                    ← here,
                    frame_behind before frame frames,
                    written,
                    set_behind before frame frame' frames,
                  )
                  e,
              all,
            )
      ]
