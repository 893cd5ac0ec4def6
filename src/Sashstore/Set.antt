-- ===== src/Sashstore/Set.antt =====
-- Set requests.
use net_blast.Base.{
  ℕ, ◌+◌, ◌<◌, ◌≡◌, ◌≢◌, ◌⊎◌, inl, inr, refl, ap, ◌∙◌, arith, List, length, some, if◌then◌else◌,
  pos, same_list, list_eq, nat_eq,
}
use net_blast.Buffer.Reads.{slice, bytes_at-slice, length-slice}
use net_blast.Buffer.Stores.{store_bytes-IsStored}
use net_blast.Capacity.{IsCapacity}
use net_blast.SashMap.{empty_key, key_size, value_size}
use net_blast.SashMap.Order.{slots, IsMap, contents}
use net_blast.SashMap.Insert.{insert-Stores}
use net_blast.Sashstore.{
  Sashstore, Reply, count, header_size, request_size, set_value, set_text, stored_text,
  not_stored_text, set_response_size, handle_set, handle_network_request,
}
use net_blast.Sashstore.Requests.{mode_of, key_of, value_of, HasRoom}

module _ (crossed : List ℕ → List ℕ) {capacity : ℕ} (valid : IsCapacity capacity) where
  -- A set request for the key `k` and the value `v` was answered by `r`: either it is stored, the
  -- response says so, and the key is bound to the value, with every other binding kept; or every
  -- pair holds another key, the response says that it is not stored, and the map is as it was.
  pub record Sets (s : Sashstore) (frame : List ℕ) (at : ℕ) (k v : List ℕ) (r : Reply)
      : Type 0 where
    pub table : IsMap valid r.store.kvstore
    pub sized : length r.frame ≡ length frame
    pub effect :
        ((r.ret ≡ pos set_response_size)
          × (slice r.frame (at + header_size) 6 ≡ stored_text)
          × (r.store.totals
              ≡ record s.totals { set = count s.totals.set; stored = count s.totals.stored })
          × ((q : List ℕ)
              → q ≢ empty_key
              → contents valid r.store.kvstore q
                ≡ (if same_list q k then some v else contents valid s.kvstore q)))
        ⊎ ((r.ret ≡ pos 10)
            × (slice r.frame at 11 ≡ not_stored_text)
            × (r.store ≡ record s {
              totals = record s.totals {
                set = count s.totals.set;
                not_stored = count s.totals.not_stored;
              };
            })
            × ((i : ℕ)
                → i < capacity
                → ((slots s.kvstore i).key ≢ empty_key) × ((slots s.kvstore i).key ≢ k)))

  module _ (s : Sashstore) (table : IsMap valid s.kvstore) (frame : List ℕ) (at : ℕ)
      (room : HasRoom frame at) (proper : key_of frame at ≢ empty_key) where
    handle_set-Sets :
        (r : Reply) × (handle_set crossed capacity s frame at ≡ some r)
        × Sets s frame at (key_of frame at) (value_of frame at) r
    unfolding handle_set
    handle_set-Sets =
        let (p, pairs', e, stores) =
          insert-Stores valid s.kvstore table (key_of frame at) (value_of frame at) proper
            (length-slice frame key_size (at + request_size))
            (length-slice frame value_size (at + set_value)) in
        elim stores.effect [
          | inl (index, is_some, _, bound) ↦
              let (f, written, stored) =
                store_bytes-IsStored stored_text frame (at + header_size) (omega arith) in
              (
                record {
                  ret = pos set_response_size;
                  store = record {
                    kvstore = pairs';
                    totals = record s.totals {
                      set = count s.totals.set;
                      stored = count s.totals.stored;
                    };
                  };
                  frame = f;
                },
                rw
                    (
                      bytes_at-slice frame key_size (at + request_size) (omega arith),
                      bytes_at-slice frame value_size (at + set_value) (omega arith),
                      e,
                      is_some,
                      written,
                    )
                    refl,
                record {
                  table = stores.table;
                  sized = stored.sized;
                  effect = inl (refl, stored.there, refl, bound);
                },
              )
          | inr (is_none, same, full) ↦
              let (f, written, stored) =
                store_bytes-IsStored not_stored_text frame at (omega arith) in
              (
                record {
                  ret = pos 10;
                  store = record {
                    kvstore = pairs';
                    totals = record s.totals {
                      set = count s.totals.set;
                      not_stored = count s.totals.not_stored;
                    };
                  };
                  frame = f;
                },
                rw
                    (
                      bytes_at-slice frame key_size (at + request_size) (omega arith),
                      bytes_at-slice frame value_size (at + set_value) (omega arith),
                      e,
                      is_none,
                      written,
                    )
                    refl,
                record {
                  table = stores.table;
                  sized = stored.sized;
                  effect = inr (
                    refl,
                    stored.there,
                    ap
                        (λ x. record {
                          kvstore = x;
                          totals = record s.totals {
                            set = count s.totals.set;
                            not_stored = count s.totals.not_stored;
                          };
                        })
                        same,
                    full,
                  );
                },
              )
        ]

    -- A set request whose key is not all 0, in a buffer with room for the longest response, on a
    -- table in order of a capacity that -c accepts, is answered without an access out of range. If
    -- it returns 18, the response says STORED, the total of the stored requests is counted up, and
    -- the key of the request is bound to its value, with every other binding kept. Else it returns
    -- 10, the response says NOT_STORED with a final zero, the other total is counted up, the table
    -- is left as it was, and every pair of it holds another key. The table stays in order.
    pub request-Sets :
        mode_of frame at ≡ set_text
        → (r : Reply) × (handle_network_request crossed capacity s frame at ≡ some r)
          × Sets s frame at (key_of frame at) (value_of frame at) r
    unfolding handle_network_request
    request-Sets is_set =
        rw (bytes_at-slice frame 4 (at + header_size) (omega arith) ∙ ap some is_set)
          handle_set-Sets
