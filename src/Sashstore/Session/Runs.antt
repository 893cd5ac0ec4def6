-- ===== src/Sashstore/Session/Runs.antt =====
-- A sequence of frames that the store answers one after another.
use net_blast.Base.{
  ℕ, ◌+◌, ◌≡◌, ◌≢◌, inl, inr, refl, ap, ◌∙◌, sym, arith, List, [], ◌∷◌, length, Option, some, none,
  Option-cases, ◌>>=◌, All, pos, same_refl, list_eq, nat_eq, some_inj, replicate, get_or-replicate,
  length-replicate,
}
use net_blast.Probe.View.{slot_of_view}
use net_blast.Capacity.{IsCapacity}
use net_blast.SashMap.{empty_key, key_size, value_size}
use net_blast.SashMap.Order.{empty_pair, slots, L, IsMap, contents}
use net_blast.Sashstore.{
  Sashstore, Reply, set_response_size, get_response_size, sashstore_init, sashstore_process_frame,
}
use net_blast.Sashstore.Requests.{value_of, IsCounted}
use net_blast.Sashstore.Set.{request-Sets}
use net_blast.Sashstore.Get.{Carries, request-Gets}
use net_blast.Sashstore.Session.{
  payload_of, IsRequest, IsSetOf, IsGetOf, room_at, process-payload, any_frame,
}

module _ (crossed : List ℕ → List ℕ) (capacity : ℕ) where
  -- Frame after frame; the replies are dropped.
  unfoldable pub run : Sashstore → List (List ℕ) → Option Sashstore
  run s [] = some s
  run s (frame ∷ frames) =
      sashstore_process_frame crossed capacity s frame >>= λ r. run r.store frames

module _ (crossed : List ℕ → List ℕ)
    (fills : (bytes : List ℕ) → length bytes ≡ key_size + 2 → length (crossed bytes) ≡ key_size)
    {capacity : ℕ} (valid : IsCapacity capacity) where
  -- On a table in order, of a capacity that -c accepts, no sequence of frames, each in a buffer of
  -- at least 244 bytes and none a request for the key of zeros, makes the code access memory out
  -- of range, if the copy of a key onto itself leaves as many bytes as it is told to. Afterwards
  -- the table is in order, each total of requests is the sum of its two kinds of answers, up to
  -- the wrap-around, if it was before, and a key other than that of zeros that no frame set is bound
  -- as it was.
  pub run-serves :
      (frames : List (List ℕ)) (s : Sashstore)
      → All IsRequest frames
      → IsMap valid s.kvstore
      → (s' : Sashstore) × (run crossed capacity s frames ≡ some s')
        × IsMap valid s'.kvstore
        × (IsCounted s.totals → IsCounted s'.totals)
        × ((q : List ℕ)
            → q ≢ empty_key
            → All (λ frame. ¬ IsSetOf q frame) frames
            → contents valid s'.kvstore q ≡ contents valid s.kvstore q)
  unfolding run
  run-serves [] s ok table = (s, refl, table, λ c. c, λ q _ _. refl)
  run-serves (frame ∷ frames) s ok table =
      let (r, e, serves) = any_frame crossed fills valid s table frame ok.0 in
      let (s', e', table', counted, others) = run-serves frames r.store ok.1 serves.table in
      (
        s',
        rw e e',
        table',
        λ c. counted (serves.counted c),
        λ q ne unset. others q ne unset.1 ∙ serves.others q ne unset.0,
      )

  -- A set request that was answered with 18 is seen by a later get request for its key: whatever
  -- frames come between, none a set request for the key, the get request returns 162, and its
  -- response carries the value of the set request. All these frames, the two requests too, are in
  -- buffers of at least 244 bytes, and none is a request for the key of zeros. This is for a table
  -- in order, of a capacity that -c accepts, and if the copy of a key onto itself leaves as many
  -- bytes as it is told to.
  pub get_after_set :
      (s : Sashstore)
      → IsMap valid s.kvstore
      → (k : List ℕ) (f g : List ℕ) (between : List (List ℕ)) → IsRequest f
      → IsRequest g
      → All IsRequest between
      → All (λ frame. ¬ IsSetOf k frame) between
      → IsSetOf k f
      → IsGetOf k g
      → {r : Reply} → sashstore_process_frame crossed capacity s f ≡ some r
      → r.ret ≡ pos set_response_size
      → (s' : Sashstore) × (run crossed capacity r.store between ≡ some s')
        × (r' : Reply) × (sashstore_process_frame crossed capacity s' g ≡ some r')
        × (r'.ret ≡ pos get_response_size)
        × Carries r'.frame (payload_of g) (value_of f (payload_of f))
  get_after_set s table k f g between okf okg ok unset (udp, is_set, keyf) (udpg, is_get, keyg) {r}
        e code =
      let (r1, e1, sets) =
        request-Sets crossed valid s table f (payload_of f)
          (room_at crossed fills valid s table f okf) (okf.proper udp (inl is_set)) is_set in
      let same : r1 ≡ r =
        some_inj (sym e1 ∙ sym (process-payload crossed fills valid s table f okf udp) ∙ e) in
      let ne : k ≢ empty_key = λ x. okf.proper udp (inl is_set) (keyf ∙ x) in
      let bound : contents valid r1.store.kvstore k ≡ some (value_of f (payload_of f)) =
        elim sets.effect [
          | inl (_, _, _, b) ↦ b k ne ∙ rw keyf (rw (same_refl k) refl)
          | inr (c, _, _, _) ↦
              let ret_10 : pos set_response_size ≡ pos 10 =
                sym code ∙ ap (λ y. y.ret) (sym same) ∙ c in
              absurd (ground arith)
        ] in
      let (s', e2, table', _, others) = run-serves between r1.store ok sets.table in
      let (r', e3, gets) =
        request-Gets crossed fills valid s' table' g (payload_of g)
          (room_at crossed fills valid s' table' g okg) (okg.proper udpg (inr is_get)) is_get in
      let known = others k ne unset ∙ bound in
      let (ret, carries, _) = gets.found (value_of f (payload_of f)) (rw keyg known) in
      (
        s',
        rw (← same) e2,
        r',
        process-payload crossed fills valid s' table' g okg udpg ∙ e3,
        ret,
        carries,
      )

module _ {capacity : ℕ} (valid : IsCapacity capacity) where
  -- If the memory for the table holds CAPACITY pairs of zeros, of a capacity that -c accepts, then
  -- after `sashstore_init` the table is in order, no key but that of zeros is bound, and no request
  -- is counted.
  pub init-IsMap :
      (q : List ℕ)
      → q ≢ empty_key
      → IsMap valid (sashstore_init (replicate capacity empty_pair)).kvstore
        × (contents valid (sashstore_init (replicate capacity empty_pair)).kvstore q ≡ none)
        × IsCounted (sashstore_init (replicate capacity empty_pair)).totals
  unfolding sashstore_init
  init-IsMap q ne = (
    record {
      sized = length-replicate capacity empty_pair;
      placed = λ s used. absurd (used (ap (λ x. x.key) (zeros s)));
      key_width = λ s. rw (zeros s) (length-replicate key_size 0);
      value_width = λ s. rw (zeros s) (length-replicate value_size 0);
    },
    elim (Option-cases (contents valid (replicate capacity empty_pair) q)) [
      | inl h ↦ h
      | inr (v, h) ↦
          let (s, key, _) = slot_of_view (L valid) (slots (replicate capacity empty_pair)) q h in
          absurd (ne (sym key ∙ ap (λ x. x.key) (zeros s)))
    ],
    (omega arith, omega arith),
  )
    where
      zeros : (s : ℕ) → slots (replicate capacity empty_pair) s ≡ empty_pair
      zeros s = get_or-replicate capacity s empty_pair
