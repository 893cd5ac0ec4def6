-- ===== src/WordTable/Insertion.antt =====
-- What an insertion does to an array of pairs, whichever loop makes its probes.
use native.Mathlib.Nat.{mod-lt}
use net_blast.Base.{
  ap, sym, ◌∙◌, get_or_out, ℕ, ◌+◌, ◌<◌, ◌≡◌, ◌≢◌, ◌==◌, ◌⊎◌, inl, inr, refl, arith, List,
  get_elem?, Option, none, some, if◌then◌else◌, ℤ, pos, minus_one, nat_eq, Option-cases,
  get_elem?-eq-get_or,
}
use net_blast.Probe.{Layout, stops, locate, spot}
use net_blast.Probe.View.{slot_of_view}
use native.Mathlib.Decide.{dec_lt, ℕ_discrete}
use net_blast.Probe.Search.{locate-IsReached, locate-none}
use net_blast.WordTable.{Pair, zero_pair, slots, layout, IsTable, contents, write_at, try_pair}
use net_blast.WordTable.Order.{write_at-IsWritten, write_at-IsTable, contents-write_at}

module _ (size : ℕ) (home : ℕ → ℕ) where
  abbrev L : Layout ℕ
  L = layout size home

  -- the code and the array that an insertion returns, when its search ended at the given probe
  abbrev pub answer : List Pair → ℕ → ℕ → Option ℕ → Option (ℤ × List Pair)
  answer pairs k v none = some (minus_one, pairs)
  answer pairs k v (some d) = some (pos 0, write_at size home pairs k v d)

  -- No pair is empty or holds the key.
  abbrev pub IsFull : List Pair → ℕ → Type 0
  IsFull pairs q = (s : ℕ) → s < size → ((slots pairs s).key ≢ 0) × ((slots pairs s).key ≢ q)

  -- An insertion at `k` of `v` into `pairs` that returned `code` and `pairs'`: either the key is
  -- bound to the value and nothing else has changed, or the array is full of other keys, and is
  -- left as it was.
  pub record Inserts (pairs : List Pair) (k v : ℕ) (code : ℤ) (pairs' : List Pair) : Type 0 where
    pub table : IsTable size home pairs'
    pub effect :
        ((code ≡ pos 0)
          × ((q : ℕ)
              → q ≢ 0
              → contents size home pairs' q
                ≡ (if q == k then some v else contents size home pairs q)))
        ⊎ ((code ≡ minus_one) × (pairs' ≡ pairs) × IsFull pairs k)
    -- An array that is full of keys other than `q` stays so, and an insertion of `q` fails on it.
    pub stays_full : (q : ℕ) → q ≢ k → IsFull pairs q → IsFull pairs' q
    pub refuses : IsFull pairs k → code ≡ minus_one

  module _ (pairs : List Pair) (table : IsTable size home pairs) (k : ℕ) (k_ne : k ≢ 0) where
    pub read-spot :
        (i : ℕ) → 0 < size → get_elem? pairs (spot L k i) ≡ some (slots pairs (spot L k i))
    read-spot i h =
        get_elem?-eq-get_or pairs (spot L k i) zero_pair (rw table.sized (mod-lt (home k + i) h))

    pub try_pair-stops :
        (v i : ℕ)
        → try_pair pairs (spot L k i) (slots pairs (spot L k i)) k v
          ≡ (if stops L (slots pairs) k i then some (write_at size home pairs k v i) else none)
    unfolding try_pair stops
    try_pair-stops v i = ground (arith, table.clean (spot L k i))

    write_at-IsFull :
        (v d q : ℕ)
        → locate L (slots pairs) k ≡ some d
        → q ≢ k
        → IsFull pairs q
        → IsFull (write_at size home pairs k v d) q
    write_at-IsFull v d q found q_ne full s h =
        let w = write_at-IsWritten size home pairs table k v d k_ne found in
        elim (ℕ_discrete s (spot L k d)) [
          | yes p ↦
              let key : (slots (write_at size home pairs k v d) s).key ≡ k =
                rw p (ap (λ x. x.key) w.there) in
              (rw key k_ne, rw key (λ e. q_ne (sym e)))
          | no p ↦ rw (w.elsewhere s p) (full s h)
        ]

    not_found_in-IsFull : {d : ℕ} → locate L (slots pairs) k ≡ some d → ¬ IsFull pairs k
    not_found_in-IsFull {d} found full =
        let (r, ends) = locate-IsReached L (slots pairs) k found in
        let (used, other) = full (spot L k d) (mod-lt (home k + d) (omega (arith, r.bound))) in
        elim ends [ inl e ↦ used e | inr e ↦ other e ]

    -- A key that is bound is in the array.
    pub bound-IsFull : {v : ℕ} → contents size home pairs k ≡ some v → ¬ IsFull pairs k
    bound-IsFull h full =
        let (s, key, _) = slot_of_view L (slots pairs) k h in
        elim (dec_lt s size) [
          | yes p ↦ (full s p).1 key
          | no p ↦ k_ne (
              sym key ∙ ap (λ x. x.key) (get_or_out pairs s zero_pair (omega (arith, table.sized))))
        ]

    pub answer-Inserts :
        (v : ℕ)
        → (code : ℤ) × (pairs' : List Pair) × (answer pairs k v (locate L (slots pairs) k)
            ≡ some (code, pairs'))
          × Inserts pairs k v code pairs'
    answer-Inserts v = elim (Option-cases (locate L (slots pairs) k)) [
      | inl h ↦ (
        minus_one,
        pairs,
        rw h,
        record {
          table = table;
          effect = inr (refl, refl, λ s p. locate-none L (slots pairs) k h s p);
          stays_full = λ q _ full. full;
          refuses = λ _. refl;
        },
      )
      | inr (d, h) ↦ (
        pos 0,
        write_at size home pairs k v d,
        rw h,
        record {
          table = write_at-IsTable size home pairs table k v d k_ne h;
          effect = inl (refl, contents-write_at size home pairs table k v d k_ne h);
          stays_full = λ q q_ne full. write_at-IsFull v d q h q_ne full;
          refuses = λ full. absurd (not_found_in-IsFull h full);
        },
      )
    ]
