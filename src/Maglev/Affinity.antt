-- ===== src/Maglev/Affinity.antt =====
-- A flow keeps its backend, from the start of the program on.
use net_blast.Base.{
  ℕ, ◌≡◌, ◌≢◌, inl, inr, refl, ap, ◌∙◌, List, [], ◌∷◌, length, Option, none, some, ◌>>=◌,
  length-fill_array,
}
use native.Mathlib.Decide.{ℕ_discrete}
use net_blast.Capacity.{IsCapacity}
use net_blast.WordTable.{Pair}
use net_blast.WordTable.Zeroed.{zeroed-IsTable, zeroed-contents, fill_array-zero}
use net_blast.Hashmap.{home}
use net_blast.PacketTool.Flow.{IsFrame, flowhash-lt}
use net_blast.Conshash.{LookUpTable, table_size}
use net_blast.Conshash.Fill.{populate_lut-backend}
use net_blast.Maglev.{Maglev, maglev_init, maglev_process_frame}
use net_blast.Maglev.Frames.{IsMaglev, tracked, process_frame-Processes, process_frame_zero}

-- frame after frame, as the main loop of a core makes the calls; the MACs are dropped
unfoldable pub run : (ℕ → ℕ) → ℕ → Maglev → List (List ℕ) → Option Maglev
run crc capacity m [] = some m
run crc capacity m (frame ∷ frames) =
    maglev_process_frame crc capacity m frame >>= λ r. run crc capacity r.1 frames

abbrev pub AreFrames : List (List ℕ) → Type 0
AreFrames [] = Unit {0}
AreFrames (frame ∷ frames) = IsFrame frame × AreFrames frames

module _ (crc : ℕ → ℕ) {capacity : ℕ} (valid : IsCapacity capacity) where
  -- With memory for CAPACITY pairs and an array of TABLE_SIZE backends `maglev_init` gives a valid state in which no flow is tracked, whatever the memory held: the
  -- table is zeroed, and the table of backends keeps its length.
  pub init-IsMaglev :
      (memory : List Pair) (lut : LookUpTable) (q : ℕ)
      → length memory ≡ capacity
      → length lut ≡ table_size
      → q ≢ 0
      → IsMaglev crc valid (maglev_init capacity memory lut)
        × (tracked crc valid (maglev_init capacity memory lut) q ≡ none)
  unfolding maglev_init
  init-IsMaglev memory lut q sized entries q_ne =
      let zero = fill_array-zero capacity memory sized in
      let same = length-fill_array capacity 0 _ memory ∙ sized in
      (
        record {
          map = zeroed-IsTable capacity (home crc capacity) _ same zero;
          backends = (populate_lut-backend lut 0 entries).0;
        },
        zeroed-contents capacity (home crc capacity) _ same zero q q_ne,
      )

  -- the tracked flows stay tracked with their backends
  abbrev pub KeepsFlows : Maglev → Maglev → Type 0
  KeepsFlows m m' =
      (q v : ℕ) → q ≢ 0 → tracked crc valid m q ≡ some v → tracked crc valid m' q ≡ some v

  pub any_frame :
      (m : Maglev)
      → IsMaglev crc valid m
      → (frame : List ℕ) → IsFrame frame
      → (mac : ℕ) × (m' : Maglev) × (maglev_process_frame crc capacity m frame ≡ some (mac, m'))
        × IsMaglev crc valid m'
        × KeepsFlows m m'
  any_frame m ok frame okf =
      let (h, hashed, _) = flowhash-lt frame okf in
      elim (ℕ_discrete h 0) [
        | yes z ↦ (
          0,
          m,
          process_frame_zero crc valid m frame (hashed ∙ ap some z),
          ok,
          λ q v _ known. known,
        )
        | no h_ne ↦
            let (mac, m', e, r) = process_frame-Processes crc valid m ok frame h hashed h_ne in
            (
              mac,
              m',
              e,
              r.state,
              λ q v q_ne known. elim (r.tracks q q_ne) [
                | inl same ↦ same ∙ known
                | inr (_, fresh, _) ↦ absurd (cc)
              ],
            )
      ]

  -- Once a flow is tracked in a connection table in order, with TABLE_SIZE backends, no sequence of frames, each long enough for the headers that the code
  -- reads, makes the code access memory out of range, drop the flow, or give it another backend.
  pub run-keeps :
      (frames : List (List ℕ)) (m : Maglev)
      → AreFrames frames
      → IsMaglev crc valid m
      → (q v : ℕ) → q ≢ 0
      → tracked crc valid m q ≡ some v
      → (m' : Maglev) × (run crc capacity m frames ≡ some m')
        × IsMaglev crc valid m'
        × (tracked crc valid m' q ≡ some v)
  unfolding run
  run-keeps [] m h ok q v q_ne known = (m, refl, ok, known)
  run-keeps (frame ∷ frames) m h ok q v q_ne known =
      let (mac, m1, e, ok1, kept) = any_frame m ok frame h.0 in
      let (m2, e2, ok2, known2) = run-keeps frames m1 h.1 ok1 q v q_ne (kept q v q_ne known) in
      (m2, rw e e2, ok2, known2)
