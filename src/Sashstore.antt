-- ===== src/Sashstore.antt =====
-- l2fwd/libsashstore/sashstore.c: the key-value store that answers "set " and "get " requests in
-- the frame that brought them.
pub mod Requests
pub mod Set
pub mod Get
pub mod Session
use net_blast.Base.{
  ℕ, ◌+◌, ◌*◌, Bool, List, [], ◌∷◌, get_elem?, ◌>>=◌, Option, none, some, if◌then◌else◌, u64, ℤ,
  pos, minus_one, same_list, nat_eq,
}
use net_blast.Buffer.{bytes_at, store_bytes}
use net_blast.PacketTool.{get_udp_payload}
use net_blast.SashMap.{
  KvPair, key_size, value_size, sashstore_hashmap_insert, sashstore_hashmap_get,
}

-- "STORED", "VALUE" and "END", and the texts and modes of `handle_network_request`
abbrev pub stored_text : List ℕ
stored_text = 83 ∷ 84 ∷ 79 ∷ 82 ∷ 69 ∷ 68 ∷ []

abbrev pub value_text : List ℕ
value_text = 86 ∷ 65 ∷ 76 ∷ 85 ∷ 69 ∷ []

abbrev pub end_text : List ℕ
end_text = 69 ∷ 78 ∷ 68 ∷ []

-- "NOT_STORED", with its final zero
abbrev pub not_stored_text : List ℕ
not_stored_text = 78 ∷ 79 ∷ 84 ∷ 95 ∷ 83 ∷ 84 ∷ 79 ∷ 82 ∷ 69 ∷ 68 ∷ 0 ∷ []

-- "NOT_FOUND", with its final zero
abbrev pub not_found_text : List ℕ
not_found_text = 78 ∷ 79 ∷ 84 ∷ 95 ∷ 70 ∷ 79 ∷ 85 ∷ 78 ∷ 68 ∷ 0 ∷ []

abbrev pub set_text : List ℕ
set_text = 115 ∷ 101 ∷ 116 ∷ 32 ∷ []

abbrev pub get_text : List ℕ
get_text = 103 ∷ 101 ∷ 116 ∷ 32 ∷ []

-- `sizeof(struct header)`, which is also the offset of `mode_str` and of both texts of a response
abbrev pub header_size : ℕ
header_size = 4 + 2 + 2 + 2

-- `sizeof(struct request_hdr)`, the offset of the key in both requests
abbrev pub request_size : ℕ
request_size = header_size + 4

-- the offset of `value` behind the `key`, `space`, `flag`, `len` and `line_end` of a set request
abbrev pub set_value : ℕ
set_value = request_size + key_size + 1 + 4 + 4 + 2

abbrev pub set_response_size : ℕ
set_response_size = header_size + 6 + 2

-- the offsets of `key`, `value` and `end_str` in a get response, and its size
abbrev pub response_key : ℕ
response_key = header_size + 5 + 1

abbrev pub response_value : ℕ
response_value = response_key + key_size + 1 + 4 + 4 + 2

abbrev pub response_end : ℕ
response_end = response_value + value_size + 2

abbrev pub get_response_size : ℕ
get_response_size = response_end + 3 + 2

-- the counts of the file, `total_set` and the others
pub record Totals : Type 0 where
  pub set : ℕ
  pub get : ℕ
  pub stored : ℕ
  pub not_stored : ℕ
  pub retrieved : ℕ
  pub not_found : ℕ

-- the file's static variables
pub record Sashstore : Type 0 where
  pub kvstore : List KvPair
  pub totals : Totals

-- `sashstore_init` on the memory that aligned_alloc returned, which it leaves as it is
unfoldable pub sashstore_init : List KvPair → Sashstore
sashstore_init memory = record {
  kvstore = memory;
  totals = record { set = 0; get = 0; stored = 0; not_stored = 0; retrieved = 0; not_found = 0 };
}

-- `total++`
abbrev pub count : ℕ → ℕ
count n = u64 (n + 1)

-- What a call returns and leaves: the result, the static variables and the frame.
pub record Reply : Type 0 where
  pub ret : ℤ
  pub store : Sashstore
  pub frame : List ℕ

-- The payload starts at the offset `at` of the frame. `memcpy(resp->key, get->key, KEY_SIZE)` has
-- a source that overlaps its target, two bytes on, so what it leaves in the target is not defined:
-- it is the parameter `crossed`, a function of the 66 bytes that the two cover. `none` is an access
-- behind the end of the frame.
module _ (crossed : List ℕ → List ℕ) (capacity : ℕ) where
  -- the branch of a set request
  unfoldable pub handle_set : Sashstore → List ℕ → ℕ → Option Reply
  handle_set s frame at = bytes_at frame (at + request_size) key_size >>= λ key.
      bytes_at frame (at + set_value) value_size >>= λ value.
      sashstore_hashmap_insert capacity s.kvstore key value >>= λ r.
      let totals = record s.totals { set = count s.totals.set } in
      elim r.0 [
        | some pair ↦ store_bytes frame (at + header_size) stored_text >>= λ frame'. some (record {
          ret = pos set_response_size;
          store = record {
            kvstore = r.1;
            totals = record totals { stored = count s.totals.stored };
          };
          frame = frame';
        })
        | none ↦ store_bytes frame at not_stored_text >>= λ frame'. some (record {
          ret = pos 10;
          store = record {
            kvstore = r.1;
            totals = record totals { not_stored = count s.totals.not_stored };
          };
          frame = frame';
        })
      ]

  -- the response of a get request that found its pair, written field by field
  unfoldable pub found_response : List ℕ → ℕ → KvPair → Option (List ℕ)
  found_response frame at pair = store_bytes frame (at + header_size) value_text >>= λ f1.
      bytes_at f1 (at + request_size) (key_size + 2) >>= λ region.
      store_bytes f1 (at + response_key) (crossed region) >>= λ f2.
      store_bytes f2 (at + response_value) pair.value >>= λ f3.
      store_bytes f3 (at + response_end) end_text

  -- the branch of a get request
  unfoldable pub handle_get : Sashstore → List ℕ → ℕ → Option Reply
  handle_get s frame at = bytes_at frame (at + request_size) key_size >>= λ key.
      sashstore_hashmap_get capacity s.kvstore key >>= λ p.
      let totals = record s.totals { get = count s.totals.get } in
      elim p [
        | some index ↦ get_elem? s.kvstore index >>= λ pair.
            found_response frame at pair >>= λ frame'. some (record {
              ret = pos get_response_size;
              store = record s { totals = record totals { retrieved = count s.totals.retrieved } };
              frame = frame';
            })
        | none ↦ store_bytes frame at not_found_text >>= λ frame'. some (record {
          ret = pos 9;
          store = record s { totals = record totals { not_found = count s.totals.not_found } };
          frame = frame';
        })
      ]

  unfoldable pub handle_network_request : Sashstore → List ℕ → ℕ → Option Reply
  handle_network_request s frame at = bytes_at frame (at + header_size) 4 >>= λ mode.
      if same_list mode set_text
      then handle_set s frame at
      else if same_list mode get_text
      then handle_get s frame at
      else some (record { ret = minus_one; store = s; frame = frame })

  unfoldable pub sashstore_process_frame : Sashstore → List ℕ → Option Reply
  sashstore_process_frame s frame = get_udp_payload frame >>= λ payload. elim payload [
    | some at ↦ handle_network_request s frame at
    | none ↦ some (record { ret = minus_one; store = s; frame = frame })
  ]
