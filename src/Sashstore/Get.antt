-- ===== src/Sashstore/Get.antt =====
-- Get requests.
use net_blast.Base.{
  ℕ, ◌+◌, ◌≡◌, ◌≢◌, inl, inr, refl, ap, ◌∙◌, sym, subst, arith, List, length, some, none, some_inj,
  pos, list_eq, nat_eq,
}
use net_blast.Buffer.{bytes_at}
use net_blast.Buffer.Reads.{slice, bytes_at-slice, length-slice}
use net_blast.Buffer.Stores.{store_bytes-IsStored, kept_slice}
use net_blast.Probe.View.{slot_of_view}
use net_blast.Capacity.{IsCapacity}
use net_blast.SashMap.{KvPair, empty_key, key_size, value_size}
use net_blast.SashMap.Order.{slots, L, IsMap, contents}
use net_blast.SashMap.Get.{get-Points}
use net_blast.Sashstore.{
  Sashstore, Reply, count, header_size, request_size, response_key, response_value, response_end,
  get_text, value_text, end_text, not_found_text, get_response_size, found_response, handle_get,
  handle_network_request,
}
use net_blast.Sashstore.Requests.{mode_of, key_of, HasRoom}

-- The response that carries the value `v`.
pub record Carries (frame : List ℕ) (at : ℕ) (v : List ℕ) : Type 0 where
  pub begins : slice frame (at + header_size) 5 ≡ value_text
  pub value : slice frame (at + response_value) value_size ≡ v
  pub ends : slice frame (at + response_end) 3 ≡ end_text

module _ (crossed : List ℕ → List ℕ)
    (fills : (bytes : List ℕ) → length bytes ≡ key_size + 2 → length (crossed bytes) ≡ key_size)
    {capacity : ℕ} (valid : IsCapacity capacity) where
  response-Carries :
      (frame : List ℕ) (at : ℕ) (pair : KvPair)
      → HasRoom frame at
      → length pair.value ≡ value_size
      → (f : List ℕ) × (found_response crossed capacity frame at pair ≡ some f)
        × (length f ≡ length frame)
        × Carries f at pair.value
  unfolding found_response
  response-Carries frame at pair room wide =
      let (f1, e1, s1) = store_bytes-IsStored value_text frame (at + header_size) (omega arith) in
      let region = slice f1 (at + request_size) (key_size + 2) in
      let key_wide = fills region (length-slice f1 (key_size + 2) (at + request_size)) in
      let (f2, e2, s2) =
        store_bytes-IsStored (crossed region) f1 (at + response_key) (omega (arith, s1.sized)) in
      let (f3, e3, s3) =
        store_bytes-IsStored pair.value f2 (at + response_value)
          (omega (arith, s1.sized, s2.sized)) in
      let (f4, e4, s4) =
        store_bytes-IsStored end_text f3 (at + response_end)
          (omega (arith, s1.sized, s2.sized, s3.sized)) in
      (
        f4,
        rw
            (
              e1,
              bytes_at-slice f1 (key_size + 2) (at + request_size) (omega (arith, s1.sized)),
              e2,
              e3,
            )
            e4,
        s4.sized ∙ s3.sized ∙ s2.sized ∙ s1.sized,
        record {
          begins =
              kept_slice s4 5 (at + header_size) (inr (omega arith))
              ∙ kept_slice s3 5 (at + header_size) (inr (omega arith))
              ∙ kept_slice s2 5 (at + header_size) (inr (omega arith))
              ∙ s1.there;
          value =
              kept_slice s4 value_size (at + response_value) (inr (omega arith))
              ∙ rw wide at s3.there;
          ends = s4.there;
        },
      )

  -- A get request for the key `k` was answered by `r`, and the table is as it was.
  pub record Gets (s : Sashstore) (frame : List ℕ) (at : ℕ) (k : List ℕ) (r : Reply) : Type 0 where
    pub kept : r.store.kvstore ≡ s.kvstore
    pub sized : length r.frame ≡ length frame
    pub found :
        (v : List ℕ)
        → contents valid s.kvstore k ≡ some v
        → (r.ret ≡ pos get_response_size)
          × Carries r.frame at v
          × (r.store.totals
              ≡ record s.totals { get = count s.totals.get; retrieved = count s.totals.retrieved })
    pub missed :
        contents valid s.kvstore k ≡ none
        → (r.ret ≡ pos 9)
          × (slice r.frame at 10 ≡ not_found_text)
          × (r.store.totals
              ≡ record s.totals { get = count s.totals.get; not_found = count s.totals.not_found })

  module _ (s : Sashstore) (table : IsMap valid s.kvstore) (frame : List ℕ) (at : ℕ)
      (room : HasRoom frame at) (proper : key_of frame at ≢ empty_key) where
    abbrev k : List ℕ
    k = key_of frame at

    read_key : bytes_at frame (at + request_size) key_size ≡ some k
    read_key = bytes_at-slice frame key_size (at + request_size) (omega arith)

    value_wide : {v : List ℕ} → contents valid s.kvstore k ≡ some v → length v ≡ value_size
    value_wide bound =
        let (i, _, val) = slot_of_view (L valid) (slots s.kvstore) k bound in
        ap length (sym val) ∙ table.value_width i

    handle_get-Gets :
        (r : Reply) × (handle_get crossed capacity s frame at ≡ some r) × Gets s frame at k r
    unfolding handle_get
    handle_get-Gets =
        let (p, e, points) = get-Points valid s.kvstore table k proper in
        elim points [
          | inr (index, v, is_some, there, bound) ↦
              let pair : KvPair = record { key = k; value = v } in
              let (f, written, sized, carries) =
                response-Carries frame at pair room (value_wide bound) in
              (
                record {
                  ret = pos get_response_size;
                  store = record s {
                    totals = record s.totals {
                      get = count s.totals.get;
                      retrieved = count s.totals.retrieved;
                    };
                  };
                  frame = f;
                },
                rw (read_key, e, is_some, there, written) refl,
                record {
                  kept = refl;
                  sized = sized;
                  found =
                      λ w h. (refl, subst (Carries f at) (some_inj (sym bound ∙ h)) carries, refl);
                  missed = λ h. absurd (cc);
                },
              )
          | inl (is_none, free) ↦
              let (f, written, stored) =
                store_bytes-IsStored not_found_text frame at (omega arith) in
              (
                record {
                  ret = pos 9;
                  store = record s {
                    totals = record s.totals {
                      get = count s.totals.get;
                      not_found = count s.totals.not_found;
                    };
                  };
                  frame = f;
                },
                rw (read_key, e, is_none, written) refl,
                record {
                  kept = refl;
                  sized = stored.sized;
                  found = λ w h. absurd (cc);
                  missed = λ h. (refl, stored.there, refl);
                },
              )
        ]

    -- A get request whose key is not all 0, in a buffer with room for the longest response, on a
    -- table in order of a capacity that -c accepts, is answered without an access out of range, if
    -- the copy of the key onto itself leaves as many bytes as it is told to. For a key that is
    -- bound it returns 162, and the response is VALUE, the value, and END in their places; else it
    -- returns 9, and the response says NOT_FOUND with a final zero. The totals are counted up
    -- accordingly, and the table is left as it was.
    pub request-Gets :
        mode_of frame at ≡ get_text
        → (r : Reply) × (handle_network_request crossed capacity s frame at ≡ some r)
          × Gets s frame at (key_of frame at) r
    unfolding handle_network_request
    request-Gets is_get =
        rw (bytes_at-slice frame 4 (at + header_size) (omega arith) ∙ ap some is_get)
          handle_get-Gets
