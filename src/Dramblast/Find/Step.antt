-- ===== src/Dramblast/Find/Step.antt =====
-- One popped item: either its result is right, or it is pushed again one bucket further on.
use net_blast.Base.{
  ℕ, ◌+◌, ◌-◌, ◌%◌, ◌≤◌, ◌<◌, ◌≡◌, ◌≢◌, ◌⊎◌, inl, inr, refl, ap, ◌∙◌, sym, arith, u64, sub64,
  bit_and, List, nat_eq, Option, some, none, false, ltb, leb, Bool-cases, Option-cases, first,
  first-eq-none, first-Ends, Ends, lt→ltb, ne→==, ==→ne,
}
use net_blast.Capacity.{IsCapacity}
use net_blast.Capacity.Mask.{capacity_bounds}
use net_blast.Probe.{spot}
use net_blast.Probe.View.{slot_of_view, view_of_slot, reached}
use net_blast.WordTable.{Pair, slots, layout, IsTable, contents}
use net_blast.Dramblast.{Item, dramblast_hash, bucket_idx_mask, found, absent, table_full}
use net_blast.Dramblast.Lanes.{simd_key_mask, load_line, cmpeq_mask}
use net_blast.Dramblast.Lanes.Search.{line_of, load_line-some, hits, Hits}
use net_blast.Dramblast.Find.{Probed, finished, again, next_bucket, probe_item}
use net_blast.Dramblast.Find.Spec.{L, answer, is_gap}
use net_blast.Dramblast.Find.Window.{at, start, bucket_value, bucket-Holds, bucket_lacks}
use net_blast.Dramblast.Find.Bucket.{len-mod-four, start_aligned, next_start}

module _ (crc : ℕ → ℕ) {len : ℕ} (valid : IsCapacity len) (roomy : 4 ≤ len) (table : List Pair)
    (ok : IsTable len (dramblast_hash crc len) table) where
  abbrev key_at : ℕ → ℕ → ℕ
  key_at k i = (at crc valid roomy table ok k i).key

  -- An item of the queue: the buckets before its own hold neither its key nor an empty pair.
  pub record IsPending (item : Item) : Type 0 where
    pub proper : item.k ≢ 0
    pub aligned : item.visit_count % 4 ≡ 0
    pub inside : item.visit_count < len
    pub here : item.idx ≡ spot (L crc table len) item.k item.visit_count
    pub passed : (i : ℕ) → i < item.visit_count → (key_at item.k i ≢ 0) × (key_at item.k i ≢ item.k)

  module _ (k c : ℕ) (k_ne : k ≢ 0) (aligned : c % 4 ≡ 0) (inside : c < len)
      (passed : (i : ℕ) → i < c → (key_at k i ≢ 0) × (key_at k i ≢ k)) where
    abbrev value_of : ℕ → Option ℕ
    value_of q = bucket_value crc valid roomy table ok k c aligned inside q

    -- A bucket that holds the key holds the value that the map has.
    hit : (v : ℕ) → value_of k ≡ some v → contents len (dramblast_hash crc len) table k ≡ some v
    hit v h =
        let (i, lo, hi, key, val) =
          bucket-Holds crc valid roomy table ok k c aligned inside k v h in
        view_of_slot (layout len (dramblast_hash crc len)) (slots table) ok.placed _ k key k_ne
        ∙ ap some val

    -- If the bucket lacks the key, and no later probe can hold it, the map lacks the key.
    miss :
        value_of k ≡ none
        → ((d : ℕ) → c + 4 ≤ d → d < len → ((i : ℕ) → i < d → key_at k i ≢ 0) → key_at k d ≢ k)
        → contents len (dramblast_hash crc len) table k ≡ none
    miss lacks later = elim (Option-cases (contents len (dramblast_hash crc len) table k)) [
      | inl h ↦ h
      | inr (v, h) ↦
          let (s, key, val) =
            slot_of_view (layout len (dramblast_hash crc len)) (slots table) k h in
          let (d, r) =
            reached (layout len (dramblast_hash crc len)) (slots table) ok.placed s k key k_ne in
          let key_d : key_at k d ≡ k = ap (λ x. (slots table x).key) r.here ∙ key in
          absurd (nowhere d key_d r.bound (λ i p. (r.before i p).0))
    ]
      where
        nowhere : (d : ℕ) → key_at k d ≡ k → d < len → ((i : ℕ) → i < d → key_at k i ≢ 0) → ⊥
        nowhere d key_d in_table full = elim (Bool-cases (ltb d c)) [
          | inl p ↦ (passed d (ground arith)).1 key_d
          | inr p ↦ elim (Bool-cases (ltb d (c + 4))) [
            | inl q ↦
                bucket_lacks crc valid roomy table ok k c aligned inside k lacks d (ground arith)
                  (ground arith) key_d
            | inr q ↦ later d (ground arith) in_table full key_d
          ]
        ]

    module _ (lacks : value_of k ≡ none) (id : ℕ) where
      gave_up :
          len ≤ c + 4 → answer crc table len k id ≡ record { v = 0; id = id; status = table_full }
      unfolding answer
      gave_up last = rw (miss lacks (λ d lo hi full _. omega arith)) (
          rw (
            first-eq-none (is_gap crc table len k) (len - 4) 0
              (λ i lo hi. ne→== _ 0 (passed i (omega arith)).0)))

      met_gap :
          (w : ℕ)
          → value_of 0 ≡ some w
          → c + 4 < len
          → answer crc table len k id ≡ record { v = 0; id = id; status = absent }
      unfolding answer
      met_gap w gap more =
          let (i, lo, hi, zero_key, _) =
            bucket-Holds crc valid roomy table ok k c aligned inside 0 w gap in
          let f = first-Ends (is_gap crc table len k) (len - 4) 0 in
          let l = len-mod-four valid roomy in
          rw (miss lacks (λ d far hi' full _. full i (omega arith) zero_key))
            (elim (Option-cases (first (is_gap crc table len k) (len - 4) 0)) [
              | inr (j, e) ↦ rw e
              | inl e ↦
                  let none_found : Ends (is_gap crc table len k) (len - 4) 0 none = rw e at f in
                  let seen = none_found i (omega arith) (omega arith) in
                  absurd (==→ne _ 0 seen zero_key)
            ])

    further :
        value_of k ≡ none
        → value_of 0 ≡ none
        → (i : ℕ) → i < c + 4
        → (key_at k i ≢ 0) × (key_at k i ≢ k)
    further lacks full i h = elim (Bool-cases (ltb i c)) [
      | inl p ↦ passed i (ground arith)
      | inr p ↦ (
        bucket_lacks crc valid roomy table ok k c aligned inside 0 full i (ground arith) h,
        bucket_lacks crc valid roomy table ok k c aligned inside k lacks i (ground arith) h,
      )
    ]

  -- What becomes of a pending item: the right answer, or an item for the same argument that is
  -- pending one bucket further on.
  abbrev pub Advances : Item → Option Probed → Type 0
  Advances item o =
      (o ≡ some (finished (answer crc table len item.k item.id)))
      ⊎ ((next : Item) × (o ≡ some (again next))
          × IsPending next
          × (next.k ≡ item.k)
          × (next.id ≡ item.id)
          × (next.visit_count ≡ item.visit_count + 4))

  module _ (item : Item) (p : IsPending item) where
    abbrev at_item : ℕ
    at_item = start crc valid roomy table ok item.k item.visit_count p.aligned p.inside

    abbrev line : List ℕ
    line =
        line_of (slots table at_item) (slots table (at_item + 1)) (slots table (at_item + 2))
          (slots table (at_item + 3))

    abbrev lane_value : ℕ → Option ℕ
    lane_value q = value_of item.k item.visit_count p.proper p.aligned p.inside p.passed q

    lanes :
        (q : ℕ)
        → Hits q
            (slots table at_item)
            (slots table (at_item + 1))
            (slots table (at_item + 2))
            (slots table (at_item + 3))
            (cmpeq_mask simd_key_mask line q)
            (lane_value q)
    lanes q =
        hits q (slots table at_item) (slots table (at_item + 1)) (slots table (at_item + 2))
          (slots table (at_item + 3))

    loaded : load_line table item.idx ≡ some line
    loaded =
        let (by_four, fits) =
          start_aligned valid roomy crc table item.k item.visit_count p.aligned p.inside in
        rw p.here (load_line-some table at_item by_four (rw ok.sized fits))

    moved :
        leb len (u64 (item.visit_count + 4)) ≡ false
        → lane_value item.k ≡ none
        → lane_value 0 ≡ none
        → IsPending (record item {
          idx = bit_and (bit_and (u64 (item.idx + 4)) (sub64 len 1)) bucket_idx_mask;
          visit_count = u64 (item.visit_count + 4);
        })
    moved more lacks full =
        let b = capacity_bounds valid in
        let count : u64 (item.visit_count + 4) ≡ item.visit_count + 4 = omega arith in
        record {
          proper = p.proper;
          aligned = omega (arith, p.aligned);
          inside = ground arith;
          here =
              rw (p.here, count)
                (next_start valid roomy crc table item.k item.visit_count p.aligned p.inside);
          passed = λ i h.
              further item.k item.visit_count p.proper p.aligned p.inside p.passed lacks full i
                (rw count at h);
        }

    next_bucket-Advances :
        lane_value item.k ≡ none → Advances item (some (next_bucket len line item))
    unfolding next_bucket
    next_bucket-Advances lacks =
        let b = capacity_bounds valid in
        let count : u64 (item.visit_count + 4) ≡ item.visit_count + 4 = omega arith in
        elim (Bool-cases (leb len (u64 (item.visit_count + 4)))) [
          | inl last ↦ rw last (
              inl (
                ap (λ r. some (finished r))
                  (sym (
                    gave_up item.k item.visit_count p.proper p.aligned p.inside p.passed lacks
                      item.id (ground arith)))))
          | inr more ↦ rw more (elim (lanes 0) [
            | inl (full, none_set) ↦
                rw none_set (inr (_, refl, moved more lacks full, refl, refl, count))
            | inr (w, gap, set_bit, _) ↦
                rw (ne→== (cmpeq_mask simd_key_mask line 0) 0 (omega arith)) (
                  inl (
                    ap (λ r. some (finished r))
                      (sym (
                        met_gap item.k item.visit_count p.proper p.aligned p.inside p.passed lacks
                          item.id w gap (ground arith)))))
          ])
        ]

    pub probe_item-Advances : Advances item (probe_item table len item)
    unfolding probe_item
    probe_item-Advances = rw loaded (elim (lanes item.k) [
      | inl (lacks, none_set) ↦ rw none_set (next_bucket-Advances lacks)
      | inr (v, holds, set_bit, lane) ↦
          let bound = hit item.k item.visit_count p.proper p.aligned p.inside p.passed v holds in
          let right : record { v = v; id = item.id; status = found }
              ≡ answer crc table len item.k item.id =
            unfold answer in rw bound in
          rw (lt→ltb _ _ set_bit, lane) (inl (ap (λ r. some (finished r)) right))
    ])
