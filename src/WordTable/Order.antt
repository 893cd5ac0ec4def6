-- ===== src/WordTable/Order.antt =====
-- Writing where a search ended keeps an array of pairs in order.
use native.Mathlib.Nat.{mod-lt}
use net_blast.Base.{
  ℕ, ◌+◌, ◌<◌, ◌≡◌, ◌≢◌, ◌==◌, some, ◌∙◌, ap, sym, arith, List, length, length-set, get_or-set_self,
  get_or-set_ne, Bool-cases, ◌⊎◌, true, false, inl, inr, ==→eq, ==→ne, if◌then◌else◌, nat_eq,
}
use net_blast.Probe.{Layout, spot, locate}
use net_blast.Probe.Search.{locate-IsReached}
use net_blast.Probe.Write.{IsWritten, write-IsPlaced, view-write}
use net_blast.WordTable.{Pair, zero_pair, slots, layout, IsTable, contents, write_at}

module _ (size : ℕ) (home : ℕ → ℕ) where
  abbrev L : Layout ℕ
  L = layout size home

  module _ (pairs : List Pair) (table : IsTable size home pairs) (k v d : ℕ) (k_ne : k ≢ 0)
      (found : locate L (slots pairs) k ≡ some d) where
    pub spot-lt : spot L k d < length pairs
    spot-lt =
        let (r, _) = locate-IsReached L (slots pairs) k found in
        rw table.sized (mod-lt (home k + d) (omega (arith, r.bound)))

    pub write_at-IsWritten :
        IsWritten L (slots pairs) (slots (write_at size home pairs k v d)) k v d
    write_at-IsWritten = record {
      proper = k_ne;
      found = found;
      there = get_or-set_self pairs (spot L k d) (record { key = k; value = v }) zero_pair spot-lt;
      elsewhere = λ j ne.
          get_or-set_ne pairs (spot L k d) j (record { key = k; value = v }) zero_pair
            (λ e. ne (sym e));
    }

    pub write_at-IsTable : IsTable size home (write_at size home pairs k v d)
    write_at-IsTable = record {
      sized = length-set pairs _ _ ∙ table.sized;
      placed = write-IsPlaced table.placed write_at-IsWritten;
      clean = λ s h. clean_at s h (Bool-cases (s == spot L k d));
    }
      where
        new : ℕ → Pair
        new = slots (write_at size home pairs k v d)

        clean_at :
            (s : ℕ)
            → (new s).key ≡ 0
            → (s == spot L k d ≡ true) ⊎ (s == spot L k d ≡ false)
            → (new s).value ≡ 0
        clean_at s h (inl p) =
            let at_end : new s ≡ record { key = k; value = v } =
              ap new (==→eq _ _ p) ∙ write_at-IsWritten.there in
            absurd (k_ne (sym (ap (λ x. x.key) at_end) ∙ h))
        clean_at s h (inr p) =
            let same = write_at-IsWritten.elsewhere s (==→ne _ _ p) in
            ap (λ x. x.value) same ∙ table.clean s (sym (ap (λ x. x.key) same) ∙ h)

    pub contents-write_at :
        (q : ℕ)
        → q ≢ 0
        → contents size home (write_at size home pairs k v d) q
          ≡ (if q == k then some v else contents size home pairs q)
    contents-write_at q ne = view-write table.placed write_at-IsWritten q ne
