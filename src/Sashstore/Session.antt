-- ===== src/Sashstore/Session.antt =====
-- What any frame leaves of the store.
pub mod Runs
use net_blast.Base.{
  ℕ, ◌+◌, ◌*◌, ◌%◌, ◌^◌, ◌≤◌, ◌<◌, ◌≡◌, ◌≢◌, ◌⊎◌, inl, inr, refl, ap, ◌∙◌, sym, subst, arith, List,
  [], ◌∷◌, length, Option, some, none, Option-cases, ◌>>=◌, All, true, false, Bool-cases,
  if◌then◌else◌, u64, ℤ, pos, minus_one, same_list, same_list_sound, same_ne, same_refl, list_eq,
  nat_eq, some_inj,
}
use native.Mathlib.Nat.{mod-lt}
use net_blast.Buffer.Reads.{byte, slice, bytes_at-slice}
use net_blast.Capacity.{IsCapacity}
use net_blast.PacketTool.Flow.{IsFrame, IsUdp, header_len, get_udp_payload_lem}
use net_blast.SashMap.{KvPair, empty_key, key_size}
use net_blast.SashMap.Order.{IsMap, contents}
use net_blast.Sashstore.{
  Sashstore, Totals, Reply, header_size, set_text, get_text, set_response_size, get_response_size,
  sashstore_init, handle_network_request, sashstore_process_frame,
}
use net_blast.Sashstore.Requests.{mode_of, key_of, value_of, HasRoom, IsCounted}
use net_blast.Sashstore.Set.{Sets, request-Sets}
use net_blast.Sashstore.Get.{Carries, Gets, request-Gets}

-- where the payload of a UDP frame starts
abbrev pub payload_of : List ℕ → ℕ
payload_of frame = 14 + header_len frame + 8

-- A frame in a buffer with room for the longest response behind the longest headers. If it is a
-- request, then not for the key of zeros, which marks an empty pair.
pub record IsRequest (frame : List ℕ) : Type 0 where
  pub bytes : (i : ℕ) → byte frame i < 2 ^ 8
  pub room : 244 ≤ length frame
  pub proper :
      IsUdp frame
      → (mode_of frame (payload_of frame) ≡ set_text)
        ⊎ (mode_of frame (payload_of frame) ≡ get_text)
      → key_of frame (payload_of frame) ≢ empty_key

-- A set request for the key `k`.
abbrev pub IsSetOf : List ℕ → List ℕ → Type 0
IsSetOf k frame =
    IsUdp frame
    × (mode_of frame (payload_of frame) ≡ set_text)
    × (key_of frame (payload_of frame) ≡ k)

-- A get request for the key `k`.
abbrev pub IsGetOf : List ℕ → List ℕ → Type 0
IsGetOf k frame =
    IsUdp frame
    × (mode_of frame (payload_of frame) ≡ get_text)
    × (key_of frame (payload_of frame) ≡ k)

module _ (crossed : List ℕ → List ℕ)
    (fills : (bytes : List ℕ) → length bytes ≡ key_size + 2 → length (crossed bytes) ≡ key_size)
    {capacity : ℕ} (valid : IsCapacity capacity) where
  -- What every frame leaves of a store in order.
  pub record Serves (s : Sashstore) (frame : List ℕ) (s' : Sashstore) : Type 0 where
    pub table : IsMap valid s'.kvstore
    pub counted : IsCounted s.totals → IsCounted s'.totals
    pub others :
        (q : List ℕ)
        → q ≢ empty_key
        → ¬ IsSetOf q frame
        → contents valid s'.kvstore q ≡ contents valid s.kvstore q

  module _ (s : Sashstore) (table : IsMap valid s.kvstore) (frame : List ℕ)
      (ok : IsRequest frame) where
    abbrev at : ℕ
    at = payload_of frame

    pub room_at : HasRoom frame at
    room_at =
        let l = mod-lt (byte frame 14) {m = 16} (omega arith) in let r = ok.room in omega arith

    is_frame : IsFrame frame
    is_frame = record {
      bytes = ok.bytes;
      enough = let r = ok.room in omega arith;
      ports = let r = room_at in omega arith;
    }

    pub process-payload :
        IsUdp frame
        → sashstore_process_frame crossed capacity s frame
          ≡ handle_network_request crossed capacity s frame at
    unfolding sashstore_process_frame
    process-payload udp = elim (get_udp_payload_lem frame is_frame) [
      | inl (_, e) ↦ rw e refl
      | inr (n, _) ↦ absurd (n udp)
    ]

    Sets-Serves :
        (r : Reply)
        → IsUdp frame
        → mode_of frame at ≡ set_text
        → Sets crossed valid s frame at (key_of frame at) (value_of frame at) r
        → Serves s frame r.store
    Sets-Serves r udp is_set sets = record {
      table = sets.table;
      counted = λ c. elim sets.effect [
        | inl (_, _, t, _) ↦ rw t (omega (arith, c), c.1)
        | inr (_, _, t, _) ↦ rw t (omega (arith, c), c.1)
      ];
      others = λ q ne unset. elim sets.effect [
        | inl (_, _, _, bound) ↦
            bound q ne ∙ rw (same_ne q (key_of frame at) (λ e. unset (udp, is_set, sym e))) refl
        | inr (_, _, t, _) ↦ rw t refl
      ];
    }

    Gets-Serves :
        (r : Reply)
        → Gets crossed fills valid s frame at (key_of frame at) r
        → Serves s frame r.store
    Gets-Serves r gets = record {
      table = rw gets.kept table;
      counted = λ c. elim (Option-cases (contents valid s.kvstore (key_of frame at))) [
        | inl h ↦ let t = (gets.missed h).2 in rw t (c.0, omega (arith, c))
        | inr (v, h) ↦ let t = (gets.found v h).2 in rw t (c.0, omega (arith, c))
      ];
      others = λ q _ _. rw gets.kept refl;
    }

    unchanged : Serves s frame s
    unchanged = record { table = table; counted = λ c. c; others = λ q _ _. refl }

    any_payload :
        IsUdp frame
        → (r : Reply) × (handle_network_request crossed capacity s frame at ≡ some r)
          × Serves s frame r.store
    any_payload udp = elim (Bool-cases (same_list (mode_of frame at) set_text)) [
      | inl p ↦
          let is_set = same_list_sound (mode_of frame at) set_text p in
          let (r, e, sets) =
            request-Sets crossed valid s table frame at room_at (ok.proper udp (inl is_set))
              is_set in
          (r, e, Sets-Serves r udp is_set sets)
      | inr p ↦ elim (Bool-cases (same_list (mode_of frame at) get_text)) [
        | inl q ↦
            let is_get = same_list_sound (mode_of frame at) get_text q in
            let (r, e, gets) =
              request-Gets crossed fills valid s table frame at room_at (ok.proper udp (inr is_get))
                is_get in
            (r, e, Gets-Serves r gets)
        | inr q ↦ (
          record { ret = minus_one; store = s; frame = frame },
          unfold handle_network_request in
              rw (bytes_at-slice frame 4 (at + header_size) (let r = room_at in omega arith))
                (rw (p, q) refl),
          unchanged,
        )
      ]
    ]

    pub any_frame :
        (r : Reply) × (sashstore_process_frame crossed capacity s frame ≡ some r)
        × Serves s frame r.store
    any_frame = elim (get_udp_payload_lem frame is_frame) [
      | inl (udp, _) ↦ let (r, e, serves) = any_payload udp in (r, process-payload udp ∙ e, serves)
      | inr (_, e) ↦ (
        record { ret = minus_one; store = s; frame = frame },
        unfold sashstore_process_frame in rw e refl,
        unchanged,
      )
    ]
