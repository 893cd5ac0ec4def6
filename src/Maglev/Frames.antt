-- ===== src/Maglev/Frames.antt =====
-- What `maglev_process_frame` returns, and what it tracks.
use net_blast.Base.{
  ℕ, ◌%◌, ◌<◌, ◌≡◌, ◌≢◌, ◌⊎◌, inl, inr, refl, ap, ◌∙◌, sym, arith, ◌==◌, List, length, get_elem?,
  get_elem?-eq-get_or, get_or_out, ◌>>=◌, Option, none, some, Option-cases, Bool-cases, lt→ltb,
  eq→==, ==→eq, ==→ne, some_inj, pos, minus_one,
}
use native.Mathlib.Decide.{dec_lt}
use net_blast.Capacity.{IsCapacity}
use net_blast.WordTable.{zero_pair, slots, contents}
use net_blast.WordTable.Insertion.{IsFull}
use net_blast.Hashmap.{home, maglev_hashmap_get}
use net_blast.Hashmap.Insert.{IsMap, insert-Inserts}
use net_blast.Hashmap.Get.{get-contents}
use net_blast.PacketTool.{flowhash}
use net_blast.Conshash.{table_size}
use net_blast.Conshash.Fill.{backend, mac_of}
use net_blast.Maglev.{Maglev, track, maglev_process_frame}

module _ (crc : ℕ → ℕ) {capacity : ℕ} (valid : IsCapacity capacity) where
  pub record IsMaglev (m : Maglev) : Type 0 where
    pub map : IsMap crc valid m.conntrack
    pub backends : length m.lookup ≡ table_size

  -- the tracked flows, by hash
  abbrev pub tracked : Maglev → ℕ → Option ℕ
  tracked m = contents capacity (home crc capacity) m.conntrack

  -- How the tracked flows may change when the flow `h` is seen: it may become tracked, with its
  -- backend. Every other flow stays as it was, and no flow is dropped or moved.
  abbrev pub Tracks : ℕ → Maglev → Maglev → Type 0
  Tracks h m m' =
      (q : ℕ)
      → q ≢ 0
      → (tracked m' q ≡ tracked m q)
        ⊎ ((q ≡ h) × (tracked m q ≡ none) × (tracked m' q ≡ some (backend m.lookup h)))

  -- No pair is empty or holds the flow `q`.
  abbrev pub IsRefused : Maglev → ℕ → Type 0
  IsRefused m q = IsFull capacity (home crc capacity) m.conntrack q

  module _ (m : Maglev) (ok : IsMaglev m) (h : ℕ) (h_ne : h ≢ 0) where
    track-Tracks :
        tracked m h ≡ none
        → (mac : ℕ) × (m' : Maglev) × (track crc capacity m h ≡ some (mac, m'))
          × IsMaglev m'
          × (m'.lookup ≡ m.lookup)
          × (mac ≡ mac_of (tracked m' h))
          × Tracks h m m'
          × (((v : ℕ) × (tracked m' h ≡ some v)) ⊎ IsRefused m' h)
          × ((q : ℕ) → IsRefused m q → IsRefused m' q)
    unfolding track
    track-Tracks unknown =
        let (code, ps, e, r) =
          insert-Inserts crc valid m.conntrack ok.map h h_ne (backend m.lookup h) in
        let entry : get_elem? m.lookup (h % table_size) ≡ some (backend m.lookup h) =
          let full = ok.backends in get_elem?-eq-get_or m.lookup (h % table_size) 0 (omega arith) in
        let after : Maglev = record m { conntrack = ps } in
        let kept : IsMaglev after = record { map = r.table; backends = ok.backends } in
        elim r.effect [
          | inl (stored, update) ↦
              let bound : tracked after h ≡ some (backend m.lookup h) =
                rw (update h h_ne, eq→== h h refl) refl in
              (
                backend m.lookup h,
                after,
                rw (entry, e, stored) refl,
                kept,
                refl,
                ap mac_of (sym bound),
                λ q q_ne. elim (Bool-cases (q == h)) [
                  | inl p ↦ let same = ==→eq q h p in inr (same, rw same unknown, rw same bound)
                  | inr p ↦ inl (rw (update q q_ne, p) refl)
                ],
                inl (backend m.lookup h, bound),
                λ q full. elim (Bool-cases (q == h)) [
                  | inl p ↦
                      let refused = r.refuses (rw (==→eq q h p) at full) in
                      let zero : pos 0 ≡ minus_one = sym stored ∙ refused in absurd (ground arith)
                  | inr p ↦ r.stays_full q (==→ne q h p) full
                ],
              )
          | inr (failed, same, full) ↦ (
            0,
            after,
            rw (entry, e, failed) refl,
            kept,
            refl,
            ap mac_of (sym (rw (← same) at unknown)),
            λ q q_ne. inl (ap (λ x. contents capacity (home crc capacity) x q) same),
            inr (rw (← same) at full),
            λ q full. rw (← same) at full,
          )
        ]

    known_frame :
        (v : ℕ)
        → tracked m h ≡ some v
        → (index : ℕ) × (maglev_hashmap_get crc capacity m.conntrack h ≡ some (some index))
          × (get_elem? m.conntrack index ≡ some (record { key = h; value = v }))
    known_frame v known =
        let (p, e, read) = get-contents crc valid m.conntrack ok.map h h_ne in
        found p e (rw known at read)
      where
        in_range :
            (index : ℕ)
            → slots m.conntrack index ≡ record { key = h; value = v }
            → get_elem? m.conntrack index ≡ some (record { key = h; value = v })
        in_range index x = elim (dec_lt index (length m.conntrack)) [
          | yes l ↦ get_elem?-eq-get_or m.conntrack index zero_pair l ∙ ap some x
          | no l ↦ absurd (
              h_ne (
                sym (
                  ap (λ y. y.key)
                    (sym (get_or_out m.conntrack index zero_pair (omega arith)) ∙ x))))
        ]

        found :
            (p : Option ℕ)
            → maglev_hashmap_get crc capacity m.conntrack h ≡ some p
            → (p >>= λ index. some (slots m.conntrack index)) ≡ some (record { key = h; value = v })
            → (index : ℕ) × (maglev_hashmap_get crc capacity m.conntrack h ≡ some (some index))
              × (get_elem? m.conntrack index ≡ some (record { key = h; value = v }))
        found none e x = absurd (cc)
        found (some index) e x = (index, e, in_range index (some_inj x))

    unknown_frame : tracked m h ≡ none → maglev_hashmap_get crc capacity m.conntrack h ≡ some none
    unknown_frame unknown =
        let (p, e, read) = get-contents crc valid m.conntrack ok.map h h_ne in
        missing p e (rw unknown at read)
      where
        missing :
            (p : Option ℕ)
            → maglev_hashmap_get crc capacity m.conntrack h ≡ some p
            → (p >>= λ index. some (slots m.conntrack index)) ≡ none
            → maglev_hashmap_get crc capacity m.conntrack h ≡ some none
        missing none e x = e
        missing (some index) e x = absurd (cc)

  -- What a call has done that returned `mac` for a frame with the flow hash `h`.
  pub record Processes (m : Maglev) (h : ℕ) (mac : ℕ) (m' : Maglev) : Type 0 where
    pub state : IsMaglev m'
    pub same_backends : m'.lookup ≡ m.lookup
    pub answers : mac ≡ mac_of (tracked m' h)
    pub tracks : Tracks h m m'
    pub bound_or_full : ((v : ℕ) × (tracked m' h ≡ some v)) ⊎ IsRefused m' h
    pub stays_full : (q : ℕ) → IsRefused m q → IsRefused m' q

  -- On a connection table in order, of a capacity that -c accepts, with TABLE_SIZE backends,
  -- `maglev_process_frame` of a frame with a flow hash other than 0 makes no access out of range. The MAC that it
  -- returns is that of the flow's binding afterwards, 0 if it has none; the flow may become
  -- tracked with its backend, and every other flow stays as it was. A flow that is not tracked
  -- afterwards has found the table full of other flows, and a table that is full of flows other than
  -- a given one stays so.
  pub process_frame-Processes :
      (m : Maglev)
      → IsMaglev m
      → (frame : List ℕ) (h : ℕ) → flowhash frame ≡ some h
      → h ≢ 0
      → (mac : ℕ) × (m' : Maglev) × (maglev_process_frame crc capacity m frame ≡ some (mac, m'))
        × Processes m h mac m'
  unfolding maglev_process_frame
  process_frame-Processes m ok frame h hashed h_ne =
      let positive : 0 < h = omega arith in
      elim (Option-cases (tracked m h)) [
        | inl unknown ↦
            let (mac, m', e, kept, lut, same, tracks, settled, full) =
              track-Tracks m ok h h_ne unknown in
            (
              mac,
              m',
              rw (hashed, lt→ltb 0 h positive, unknown_frame m ok h h_ne unknown, e) refl,
              record {
                state = kept;
                same_backends = lut;
                answers = same;
                tracks = tracks;
                bound_or_full = settled;
                stays_full = full;
              },
            )
        | inr (v, known) ↦
            let (index, e, pair) = known_frame m ok h h_ne v known in
            (
              v,
              m,
              rw (hashed, lt→ltb 0 h positive, e, pair) refl,
              record {
                state = ok;
                same_backends = refl;
                answers = ap mac_of (sym known);
                tracks = λ q _. inl refl;
                bound_or_full = inl (v, known);
                stays_full = λ q full. full;
              },
            )
      ]

  -- A frame without a flow hash has no MAC, and changes nothing.
  pub process_frame_zero :
      (m : Maglev) (frame : List ℕ)
      → flowhash frame ≡ some 0
      → maglev_process_frame crc capacity m frame ≡ some (0, m)
  unfolding maglev_process_frame
  process_frame_zero m frame hashed = rw hashed refl
