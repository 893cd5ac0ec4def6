-- ===== src/L2fwd/Batch.antt =====
-- A burst in the mode `dramblast`.
use native.Mathlib.Nat.{zero-add}
use net_blast.Base.{
  subst, nat_eq, lt→ltb, All, if◌then◌else◌, ℕ, suc, ◌+◌, ◌^◌, ◌<◌, ◌≤◌, ◌≡◌, ◌≢◌, ◌∙◌, ◌>>=◌, inl,
  inr, refl, sym, arith, ltb, List, [], ◌∷◌, length, get_elem?, get_or, some, u64, sub64,
}
use net_blast.Conshash.Fill.{mac_of}
use net_blast.Conshash.{LookUpTable, table_size}
use net_blast.Maglev.Affinity.{AreFrames}
use net_blast.Dramblast.{Arg, Queue, Ht}
use net_blast.Dramblast.Insert.Laws.{IsStore, binds}
use net_blast.Dramblast.FindQueue.Fifo.{IsQueue, items}
use net_blast.Dramblast.Frames.{dramblast_process_frames}
use net_blast.Dramblast.Frames.Answers.{AreNumbered, process_frames-ProcessesBatch}
use net_blast.Dramblast.Frames.Spec.{bound}
use net_blast.L2fwd.{PortStatistics, dramblast_burst}
use net_blast.L2fwd.Marks.{mac_for, forwarded, forwarded-le, AreMarked, Counts}
use net_blast.L2fwd.Update.{update_frames-Updates}
use net_blast.L2fwd.Collect.{counted-AreNumbered, collect_args-Collects}

-- The state in which the core `lcore_id` may look up a batch: the table is in order and has at least
-- one bucket, and the queue of the core is valid and empty.
pub record IsReady (crc : ℕ → ℕ) (ht : Ht) (lcore_id : ℕ) : Type 0 where
  pub store : IsStore crc ht
  pub roomy : 4 ≤ ht.len
  pub own : (q : Queue) × (get_elem? ht.queues lcore_id ≡ some q) × IsQueue q × (items q ≡ [])

-- the bindings of the table stay
abbrev pub KeepsBindings : (ℕ → ℕ) → Ht → Ht → Type 0
KeepsBindings crc ht ht' = (q v : ℕ) → q ≢ 0 → binds crc ht q ≡ some v → binds crc ht' q ≡ some v

module _ (crc : ℕ → ℕ) (backends : LookUpTable) (entries : length backends ≡ table_size)
    (lcore_id : ℕ) where
  -- the call of `dramblast_process_frames`, if it is made
  lookup_args :
      (ht : Ht) (args : List Arg) (macs : List ℕ)
      → IsReady crc ht lcore_id
      → All (λ arg. arg.k ≢ 0) args
      → AreNumbered args
      → length args ≤ length macs
      → (ht' : Ht) × (macs' : List ℕ) × ((if ltb 0 (length args)
            then dramblast_process_frames crc backends ht args macs lcore_id
            else some (ht, macs))
          ≡ some (ht', macs'))
        × IsReady crc ht' lcore_id
        × KeepsBindings crc ht ht'
        × (length macs' ≡ length macs)
        × All (λ arg. get_or macs' arg.id 0 ≡ mac_of (binds crc ht' arg.k)) args
  lookup_args ht [] macs ready keys numbers room = (ht, macs, refl, ready, λ q v _ k. k, refl, tt)
  lookup_args ht (arg ∷ args) macs ready keys numbers room =
      let (q, own, v, em) = ready.own in
      let (ht', macs', e, r) =
        process_frames-ProcessesBatch crc backends ht (arg ∷ args) macs lcore_id
          (record {
            store = ready.store;
            roomy = ready.roomy;
            own = own;
            queue = v;
            idle = em;
            keys = keys;
          })
          entries numbers room in
      (
        ht',
        macs',
        rw (lt→ltb 0 (suc (length args)) (omega arith)) e,
        record { store = r.store; roomy = rw r.same_len ready.roomy; own = r.idle },
        λ q v q_ne k. elim (r.keeps q q_ne) [
          | inl same ↦ subst (λ n. bound crc n ht'.table q ≡ some v) (sym r.same_len) (same ∙ k)
          | inr (none_before, _, _) ↦ absurd (cc)
        ],
        r.size,
        r.macs,
      )

  module _ (addrs : List (List ℕ)) (dst_port : ℕ) {addr : List ℕ}
      (known : get_elem? addrs dst_port ≡ some addr) (six : length addr ≡ 6) where
    -- In the mode `dramblast` a burst of at most as many frames as `mac_addrs` has places, and fewer
    -- than 2 ^ 64, each long enough for the headers that the code reads, is processed without an access
    -- out of range, where the port has an address, the core is ready for a lookup, and there are
    -- TABLE_SIZE backends. Each frame has the MAC of its flow's binding afterwards, 0 if there is none.
    -- A frame whose MAC is not 0 has its MACs updated and is counted as forwarded; any other stays and
    -- is counted as unmapped. No binding of the table is dropped or changed, and the core is ready for
    -- the next burst.
    pub dramblast_burst-Counts :
        (ht : Ht) (mac_addrs : List ℕ) (s : PortStatistics) (frames : List (List ℕ))
        → IsReady crc ht lcore_id
        → AreFrames frames
        → length frames ≤ length mac_addrs
        → length frames < 2 ^ 64
        → (ht' : Ht) × (s' : PortStatistics) × (frames' : List (List ℕ)) × (dramblast_burst crc
              addrs dst_port lcore_id backends ht mac_addrs s frames
            ≡ some (ht', s', frames'))
          × IsReady crc ht' lcore_id
          × KeepsBindings crc ht ht'
          × AreMarked addrs dst_port (mac_for (binds crc ht')) frames frames'
          × Counts (length frames) (forwarded (mac_for (binds crc ht')) frames) s s'
    unfolding dramblast_burst
    dramblast_burst-Counts ht mac_addrs s frames ready h room small =
        let (args, numbers, e, c) = collect_args-Collects crc addrs dst_port frames 0 0 h in
        let few = c.few in
        let (ht', macs, looked_up, ready', kept, size, has) =
          lookup_args ht args mac_addrs ready c.keys (counted-AreNumbered args c.ids)
            (omega arith) in
        let (frames', updated, marked) =
          update_frames-Updates crc addrs dst_port known six (binds crc ht') macs c.collected h
            (omega arith) has c.ids [] 0 refl in
        let found = forwarded (mac_for (binds crc ht')) frames in
        let most = forwarded-le (mac_for (binds crc ht')) frames in
        (
          ht',
          record s {
            fwded = u64 (s.fwded + found);
            unmapped = u64 (s.unmapped + sub64 (length frames) found);
          },
          frames',
          rw (e, ◌>>=◌, looked_up, updated, zero-add) refl,
          ready',
          kept,
          marked,
          record { few = most; fwded = omega arith; unmapped = omega arith; others = refl },
        )
