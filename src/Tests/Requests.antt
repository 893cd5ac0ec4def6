-- ===== src/Tests/Requests.antt =====
-- A set request and a get request, in frames of 244 bytes, to a store of eight pairs.
use net_blast.Base.{
  ℕ, ◌+◌, ◌≡◌, ◌≢◌, refl, ap, arith, List, [], ◌∷◌, ◌++◌, length, Option, some, none, replicate,
  length-take, take, All, pos,
}
use net_blast.Fnv.{fnv_1, fnv_1_multi, char_to_u64}
use net_blast.Buffer.{bytes_at, store_bytes}
use net_blast.Buffer.Reads.{byte}
use net_blast.PacketTool.Flow.{IsUdp}
use net_blast.PacketTool.{get_udp_payload}
use net_blast.SashMap.{
  KvPair, empty_key, key_size, value_size, insert_from, probe_index, sashstore_hashmap_insert,
}
use net_blast.SashMap.Order.{empty_pair, IsMap, contents}
use net_blast.Sashstore.{
  Sashstore, Reply, sashstore_init, handle_network_request, handle_set, sashstore_process_frame,
  set_text, get_text, get_response_size,
}
use net_blast.Sashstore.Requests.{key_of, value_of, IsCounted}
use net_blast.Sashstore.Set.{Sets, request-Sets}
use net_blast.Sashstore.Get.{Carries, Gets, request-Gets}
use net_blast.Sashstore.Session.{payload_of, IsRequest, IsSetOf}
use net_blast.Sashstore.Session.Runs.{run, run-serves, get_after_set, init-IsMap}
use net_blast.Tests.Setup.{eight, are_bytes-AreBytes, byte-lt}

abbrev crossed : List ℕ → List ℕ
crossed = take 64

fills : (bytes : List ℕ) → length bytes ≡ key_size + 2 → length (crossed bytes) ≡ key_size
fills bytes h = length-take 64 bytes (omega arith)

-- a UDP frame with a request of the given mode, key and value
abbrev request : List ℕ → ℕ → ℕ → List ℕ
request mode k v =
    replicate 14 0
    ++ (0x45
        ∷ (replicate 8 7
            ++ (17
                ∷ (replicate 28 0
                    ++ (mode
                        ++ (replicate key_size k
                            ++ (replicate 11 32 ++ (replicate value_size v ++ replicate 50 0))))))))

abbrev key : List ℕ
key = replicate key_size 1

abbrev value : List ℕ
value = replicate value_size 2

abbrev set_frame : List ℕ
set_frame = request set_text 1 2

abbrev get_frame : List ℕ
get_frame = request get_text 1 0

key-proper : key ≢ empty_key
unfolding replicate
key-proper e =
    let bad : byte key 0 ≡ byte empty_key 0 = ap (λ xs. byte xs 0) e in absurd (omega arith)

set_frame-IsRequest : IsRequest set_frame
unfolding replicate
set_frame-IsRequest = record {
  bytes = byte-lt set_frame (are_bytes-AreBytes set_frame refl);
  room = omega arith;
  proper = λ udp asks. key-proper;
}

get_frame-IsRequest : IsRequest get_frame
unfolding replicate
get_frame-IsRequest = record {
  bytes = byte-lt get_frame (are_bytes-AreBytes get_frame refl);
  room = omega arith;
  proper = λ udp asks. key-proper;
}

-- a frame that is no request, with zeros where a request has its key
abbrev other_frame : List ℕ
other_frame = replicate 244 0

other_not-IsUdp : ¬ IsUdp other_frame
unfolding replicate
other_not-IsUdp udp = let p : 0 ≡ 17 = udp.1 in absurd (omega arith)

other_frame-IsRequest : IsRequest other_frame
unfolding replicate
other_frame-IsRequest = record {
  bytes = byte-lt other_frame (are_bytes-AreBytes other_frame refl);
  room = omega arith;
  proper = λ udp asks. absurd (other_not-IsUdp udp);
}

abbrev fresh_pairs : List KvPair
fresh_pairs = replicate 8 empty_pair

abbrev fresh_store : Sashstore
fresh_store = sashstore_init fresh_pairs

fresh-IsMap : IsMap eight fresh_store.kvstore
fresh-IsMap = init-IsMap_fresh.0
  where
    init-IsMap_fresh :
        IsMap eight fresh_store.kvstore
        × (contents eight fresh_store.kvstore key ≡ none)
        × IsCounted fresh_store.totals
    init-IsMap_fresh = init-IsMap eight key key-proper

abbrev at : ℕ
at = 42

request-Sets_example :
    (r : Reply) × (handle_network_request crossed 8 fresh_store set_frame at ≡ some r)
    × Sets crossed eight fresh_store set_frame at (key_of set_frame at) (value_of set_frame at) r
unfolding replicate
request-Sets_example =
    request-Sets crossed eight fresh_store fresh-IsMap set_frame at (omega arith) key-proper refl

request-Gets_example :
    (r : Reply) × (handle_network_request crossed 8 fresh_store get_frame at ≡ some r)
    × Gets crossed fills eight fresh_store get_frame at (key_of get_frame at) r
unfolding replicate
request-Gets_example =
    request-Gets crossed fills eight fresh_store fresh-IsMap get_frame at (omega arith) key-proper
      refl

run-serves_example :
    (s' : Sashstore) × (run crossed 8 fresh_store (get_frame ∷ other_frame ∷ set_frame ∷ [])
      ≡ some s')
    × IsMap eight s'.kvstore
    × (IsCounted fresh_store.totals → IsCounted s'.totals)
    × ((q : List ℕ)
        → q ≢ empty_key
        → All (λ frame. ¬ IsSetOf q frame) (get_frame ∷ other_frame ∷ set_frame ∷ [])
        → contents eight s'.kvstore q ≡ contents eight fresh_store.kvstore q)
run-serves_example =
    run-serves crossed fills eight (get_frame ∷ other_frame ∷ set_frame ∷ []) fresh_store
      (get_frame-IsRequest, (other_frame-IsRequest, (set_frame-IsRequest, tt))) fresh-IsMap

abbrev answered : Option Reply → Reply
answered (some r) = r
answered none = record { ret = pos 0; store = fresh_store; frame = [] }

abbrev first_reply : Reply
first_reply = answered (sashstore_process_frame crossed 8 fresh_store set_frame)

first_answer :
    (sashstore_process_frame crossed 8 fresh_store set_frame ≡ some first_reply)
    × (first_reply.ret ≡ pos 18)
unfolding replicate sashstore_process_frame get_udp_payload handle_network_request handle_set
    bytes_at store_bytes sashstore_hashmap_insert insert_from probe_index sashstore_init fnv_1
    fnv_1_multi char_to_u64
first_answer = (refl, refl)

get_after_set_example :
    (s' : Sashstore) × (run crossed 8 first_reply.store (get_frame ∷ other_frame ∷ []) ≡ some s')
    × (r' : Reply) × (sashstore_process_frame crossed 8 s' get_frame ≡ some r')
    × (r'.ret ≡ pos get_response_size)
    × Carries r'.frame (payload_of get_frame) (value_of set_frame (payload_of set_frame))
unfolding replicate
get_after_set_example =
    get_after_set crossed fills eight fresh_store fresh-IsMap key set_frame get_frame
      (get_frame ∷ other_frame ∷ []) set_frame-IsRequest get_frame-IsRequest
      (get_frame-IsRequest, (other_frame-IsRequest, tt))
      (
        (λ h.
            let bad : byte get_text 0 ≡ byte set_text 0 = ap (λ xs. byte xs 0) h.1 in
            absurd (omega arith)),
        ((λ h. other_not-IsUdp h.0), tt),
      )
      ((refl, refl), refl, refl) ((refl, refl), refl, refl) first_answer.0 first_answer.1
