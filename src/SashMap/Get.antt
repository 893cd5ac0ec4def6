-- ===== src/SashMap/Get.antt =====
-- What `sashstore_hashmap_get` reads of the map.
use net_blast.Base.{
  ℕ, zero, suc, ◌+◌, ◌≡◌, ◌≢◌, ◌⊎◌, inl, inr, refl, ap, ◌∙◌, sym, arith, List, get_elem?, Option,
  none, some, if◌then◌else◌, Bool-cases, true, same_list, same_list_sound, same_ne, same_refl,
  ne_of_same, list_eq, nat_eq, first,
}
use net_blast.Probe.{spot, stops, locate, view, value_at}
use net_blast.Probe.Search.{locate-IsReached}
use net_blast.Capacity.{IsCapacity}
use net_blast.Fnv.{fnv_1}
use net_blast.SashMap.{KvPair, empty_key, get_from, sashstore_hashmap_get}
use net_blast.SashMap.Order.{slots, L, IsMap, contents, probe_index-spot, read-spot}

module _ {capacity : ℕ} (valid : IsCapacity capacity) (pairs : List KvPair)
    (table : IsMap valid pairs) (k : List ℕ) where
  -- the pointer of a search that ended at a probe
  abbrev pointer : Option ℕ → Option ℕ
  pointer none = none
  pointer (some d) =
      if same_list (slots pairs (spot (L valid) k d)).key empty_key
      then none
      else some (spot (L valid) k d)

  get_from-pointer :
      (n i : ℕ)
      → get_from capacity pairs k (fnv_1 k) n i
        ≡ some (pointer (first (stops (L valid) (slots pairs) k) n i))
  unfolding get_from first stops
  get_from-pointer zero i = refl
  get_from-pointer (suc n) i =
      rw (probe_index-spot valid k i, read-spot valid pairs table k i)
        (ground (arith, get_from-pointer n (i + 1)))

  same_of : {q : List ℕ} → q ≡ k → same_list q k ≡ true
  same_of e = rw e (same_refl k)

  -- What the pointer `p` says of the key.
  abbrev pub Points : Option ℕ → Type 0
  Points p =
      ((p ≡ none) × (contents valid pairs k ≡ none))
      ⊎ ((index : ℕ) × (v : List ℕ) × (p ≡ some index)
          × (get_elem? pairs index ≡ some (record { key = k; value = v }))
          × (contents valid pairs k ≡ some v))

  pointer-Points :
      k ≢ empty_key → (o : Option ℕ) → locate (L valid) (slots pairs) k ≡ o → Points (pointer o)
  unfolding view value_at
  pointer-Points proper none e = inl (refl, rw e refl)
  pointer-Points proper (some d) e =
      let (_, ends) = locate-IsReached (L valid) (slots pairs) k e in
      let s = slots pairs (spot (L valid) k d) in
      elim (Bool-cases (same_list s.key empty_key)) [
        | inl p ↦
            let vacant = same_list_sound s.key empty_key p in
            inl (rw p refl, rw (e, same_ne s.key k (λ x. proper (sym x ∙ vacant))) refl)
        | inr p ↦
            let here : s.key ≡ k = elim ends [
              | inl x ↦ absurd (ne_of_same s.key empty_key p x)
              | inr x ↦ x
            ] in
            inr (
              spot (L valid) k d,
              s.value,
              rw p refl,
              read-spot valid pairs table k d
                  ∙ ap (λ x. some (record { key = x; value = s.value })) here,
              rw (e, same_of here) refl,
            )
      ]

  -- On an array in order, of a capacity that -c accepts, for a key that is not all 0,
  -- `sashstore_hashmap_get` makes no access out of range, and reads the map: NULL for a key that
  -- is not bound, and else a pointer to a pair of the array that holds the key and its value.
  pub get-Points :
      k ≢ empty_key → (p : Option ℕ) × (sashstore_hashmap_get capacity pairs k ≡ some p) × Points p
  unfolding sashstore_hashmap_get
  get-Points proper = (
    pointer (locate (L valid) (slots pairs) k),
    unfold locate in get_from-pointer capacity 0,
    pointer-Points proper (locate (L valid) (slots pairs) k) refl,
  )
