-- ===== src/Dramblast/Frames/Settle.antt =====
-- One round of the loop over the results: what it does to the table, and the MAC that it finds.
use net_blast.Base.{
  subst, ◌-◌, ℕ, ◌==◌, ◌≡◌, ◌≢◌, ◌⊎◌, inl, inr, refl, ap, ◌∙◌, sym, List, length, none, some,
  Option-cases, Bool-cases, ℤ, pos, eq→==, ==→eq, nat_eq, first, if◌then◌else◌,
}
use native.Mathlib.Decide.{ℕ_discrete}
use net_blast.Capacity.{IsCapacity}
use net_blast.WordTable.{Pair, IsTable}
use net_blast.WordTable.Insertion.{Inserts, IsFull, bound-IsFull}
use net_blast.Conshash.{LookUpTable, table_size}
use net_blast.Conshash.Fill.{backend, mac_of}
use net_blast.Dramblast.{found, absent, table_full, Arg, Queue, Ht, dramblast_hash}
use net_blast.Dramblast.Find.Spec.{answer, is_gap}
use net_blast.Dramblast.Frames.Spec.{bound, Keeps, IsFinal}

-- A status tells apart the key that is mapped and the one that is not.
absent_ne : table_full ≢ absent
absent_ne e = cc

module _ (crc : ℕ → ℕ) (table : List Pair) (len : ℕ) where
  -- what a result says, by its status
  pub answer-cases :
      (k id : ℕ)
      → ((v : ℕ) × (bound crc len table k ≡ some v)
          × (answer crc table len k id ≡ record { v = v; id = id; status = found }))
        ⊎ (((bound crc len table k ≡ none)
              × (answer crc table len k id ≡ record { v = 0; id = id; status = table_full })
              × ((answer crc table len k 0).status ≢ absent))
            ⊎ ((bound crc len table k ≡ none)
                × (answer crc table len k id ≡ record { v = 0; id = id; status = absent })
                × ((answer crc table len k 0).status ≡ absent)))
  unfolding answer
  answer-cases k id = elim (Option-cases (bound crc len table k)) [
    | inr (v, h) ↦ inl (v, h, rw h refl)
    | inl h ↦ elim (Option-cases (first (is_gap crc table len k) (len - 4) 0)) [
      | inl g ↦ inr (inl (h, rw (h, g) refl, rw (h, g) absent_ne))
      | inr (i, g) ↦ inr (inr (h, rw (h, g) refl, rw (h, g) refl))
    ]
  ]

module _ (crc : ℕ → ℕ) {len : ℕ} (valid : IsCapacity len) (backends : LookUpTable)
    (entries : length backends ≡ table_size) (table0 : List Pair) (args : List Arg)
    (queues : List Queue) where
  abbrev pub store : List Pair → Ht
  store table = record { table = table; len = len; queues = queues }

  -- What a round for the key `k` has done to the table `t`, with `mac` for the address.
  pub record Settles (t : List Pair) (k mac : ℕ) (t' : List Pair) : Type 0 where
    pub table : IsTable len (dramblast_hash crc len) t'
    pub keeps : Keeps crc len backends table0 t'
    pub tells : mac ≡ mac_of (bound crc len t' k)
    pub final : IsFinal crc len table0 t' k
    pub others :
        (q : ℕ)
        → q ≢ 0
        → IsFinal crc len table0 t q
        → (bound crc len t' q ≡ bound crc len t q) × IsFinal crc len table0 t' q

  module _ (t : List Pair) (ok : IsTable len (dramblast_hash crc len) t)
      (keeps : Keeps crc len backends table0 t) (k : ℕ) (k_ne : k ≢ 0) where
    pub found-Settles : (v : ℕ) → bound crc len table0 k ≡ some v → Settles t k v t
    found-Settles v h =
        let same : bound crc len t k ≡ some v = elim (keeps k k_ne) [
          | inl e ↦ e ∙ h
          | inr (e, _, _) ↦ absurd (cc)
        ] in
        record {
          table = ok;
          keeps = keeps;
          tells = ap mac_of (sym same);
          final = inl (v, same);
          others = λ q _ f. (refl, f);
        }

    pub full-Settles :
        bound crc len table0 k ≡ none
        → (answer crc table0 len k 0).status ≢ absent
        → Settles t k 0 t
    full-Settles h status =
        let same : bound crc len t k ≡ none = elim (keeps k k_ne) [
          | inl e ↦ e ∙ h
          | inr (_, _, e) ↦ absurd (status e)
        ] in
        record {
          table = ok;
          keeps = keeps;
          tells = ap mac_of (sym same);
          final = inr (inr status);
          others = λ q _ f. (refl, f);
        }

    module _ (h : bound crc len table0 k ≡ none)
        (status : (answer crc table0 len k 0).status ≡ absent) where
      -- The key was inserted with its backend.
      pub stored-Settles :
          {code : ℤ} {t' : List Pair}
          → code ≡ pos 0
          → Inserts len (dramblast_hash crc len) t k (backend backends k) code t'
          → ((q : ℕ)
              → q ≢ 0
              → bound crc len t' q
                ≡ (if q == k then some (backend backends k) else bound crc len t q))
          → Settles t k (backend backends k) t'
      stored-Settles {code} {t'} stored r update = record {
        table = r.table;
        keeps = kept;
        tells = ap mac_of (sym here);
        final = inl (backend backends k, here);
        others = elsewhere;
      }
        where
          here : bound crc len t' k ≡ some (backend backends k)
          here = rw (update k k_ne, eq→== k k refl) refl

          there : (q : ℕ) → q ≢ 0 → q ≢ k → bound crc len t' q ≡ bound crc len t q
          there q q_ne ne = elim (Bool-cases (q == k)) [
            | inl p ↦ absurd (ne (==→eq q k p))
            | inr p ↦ rw (update q q_ne, p) refl
          ]

          kept : Keeps crc len backends table0 t'
          kept q q_ne = elim (ℕ_discrete q k) [
            | yes p ↦ inr (rw p h, rw p here, rw p status)
            | no p ↦ rw (there q q_ne p) (keeps q q_ne)
          ]

          again : IsFinal crc len table0 t k → bound crc len t' k ≡ bound crc len t k
          again (inl (v, b)) = elim (keeps k k_ne) [
            | inl e ↦ absurd (cc)
            | inr (_, e, _) ↦ here ∙ sym e
          ]
          again (inr (inl full)) = let failed = r.refuses full in absurd (cc)
          again (inr (inr other)) = absurd (other status)

          elsewhere :
              (q : ℕ)
              → q ≢ 0
              → IsFinal crc len table0 t q
              → (bound crc len t' q ≡ bound crc len t q) × IsFinal crc len table0 t' q
          elsewhere q q_ne f = elim (ℕ_discrete q k) [
            | yes p ↦
                let f' : IsFinal crc len table0 t k = subst (IsFinal crc len table0 t) p f in
                (rw p (again f'), inl (backend backends k, rw p here))
            | no p ↦ (
              there q q_ne p,
              elim f [
                | inl (v, b) ↦ inl (v, there q q_ne p ∙ b)
                | inr (inl full) ↦ inr (inl (r.stays_full q p full))
                | inr (inr other) ↦ inr (inr other)
              ],
            )
          ]

      -- The table is full of other keys.
      pub refused-Settles : IsFull len (dramblast_hash crc len) t k → Settles t k 0 t
      refused-Settles full =
          let unbound : bound crc len t k ≡ none = elim (Option-cases (bound crc len t k)) [
            | inl e ↦ e
            | inr (v, e) ↦ absurd (bound-IsFull len (dramblast_hash crc len) t ok k k_ne e full)
          ] in
          record {
            table = ok;
            keeps = keeps;
            tells = ap mac_of (sym unbound);
            final = inr (inl full);
            others = λ q _ f. (refl, f);
          }
