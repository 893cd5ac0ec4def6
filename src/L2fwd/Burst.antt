-- ===== src/L2fwd/Burst.antt =====
-- A round of the main loop for one queue, in every mode.
use net_blast.Base.{
  ap, ◌∙◌, ◌≢◌, ◌==◌, ne→==, if◌then◌else◌, ℕ, ◌+◌, ◌-◌, ◌%◌, ◌^◌, ◌<◌, ◌≤◌, ◌≡◌, inl, inr, refl,
  arith, ltb, Bool-cases, List, [], ◌∷◌, length, get_elem?, some, u64,
}
use net_blast.Capacity.{IsCapacity}
use net_blast.Conshash.{table_size}
use net_blast.Maglev.Frames.{IsMaglev, tracked}
use net_blast.Dramblast.Insert.Laws.{binds}
use net_blast.Maglev.Affinity.{AreFrames}
use net_blast.L2fwd.{
  PortStatistics, Tables, Mode, maglev_mode, dramblast_mode, none_mode, none_burst, count_tx,
  map_burst, process_burst,
}
use net_blast.L2fwd.Mac.{mac_updating-runs}
use net_blast.L2fwd.Marks.{mac_for, forwarded, AreMarked, Counts}
use net_blast.L2fwd.Tracking.{maglev_burst-Counts}
use net_blast.L2fwd.Batch.{IsReady, dramblast_burst-Counts}

-- How a round was counted that received `n` frames, of which `f` have a MAC and `nb_tx` were sent,
-- and that took `cycles`, where it received any.
pub record Accounts (n nb_tx f cycles : ℕ) (s s' : PortStatistics) : Type 0 where
  pub most : nb_tx ≤ n
  pub few : f ≤ n
  pub tx : s'.tx % 2 ^ 64 ≡ u64 (s.tx + nb_tx)
  pub tx_dropped : s'.tx_dropped % 2 ^ 64 ≡ u64 (s.tx_dropped + (n - nb_tx))
  pub fwded : s'.fwded % 2 ^ 64 ≡ u64 (s.fwded + f)
  pub unmapped : s'.unmapped % 2 ^ 64 ≡ u64 (s.unmapped + (n - f))
  pub rx : s'.rx % 2 ^ 64 ≡ u64 (s.rx + n)
  pub rx_cnt : s'.rx_cnt % 2 ^ 64 ≡ u64 (s.rx_cnt + 1)
  pub hash_tsc : s'.hash_tsc % 2 ^ 64 ≡ u64 (s.hash_tsc + (if n == 0 then 0 else cycles))
  pub rx_dropped : s'.rx_dropped ≡ s.rx_dropped

-- what `count_tx` changes
record Sends (n nb_tx : ℕ) (s s' : PortStatistics) : Type 0 where
  tx : s'.tx % 2 ^ 64 ≡ u64 (s.tx + nb_tx)
  tx_dropped : s'.tx_dropped % 2 ^ 64 ≡ u64 (s.tx_dropped + (n - nb_tx))
  fwded : s'.fwded ≡ s.fwded
  unmapped : s'.unmapped ≡ s.unmapped
  rx : s'.rx ≡ s.rx
  rx_cnt : s'.rx_cnt ≡ s.rx_cnt
  hash_tsc : s'.hash_tsc ≡ s.hash_tsc
  rx_dropped : s'.rx_dropped ≡ s.rx_dropped

count_tx-Sends :
    (n nb_tx : ℕ) (s : PortStatistics) → nb_tx ≤ n → Sends n nb_tx s (count_tx n nb_tx s)
unfolding count_tx
count_tx-Sends n nb_tx s h = record {
  tx = ground arith;
  tx_dropped = ground arith;
  fwded = ground arith;
  unmapped = ground arith;
  rx = ground arith;
  rx_cnt = ground arith;
  hash_tsc = ground arith;
  rx_dropped = ground arith;
}

module _ (crc : ℕ → ℕ) {capacity : ℕ} (valid : IsCapacity capacity) (lcore_id : ℕ) where
  -- what a mode needs of its table
  abbrev pub IsServing : Mode → Tables → Type 0
  IsServing maglev_mode t = IsMaglev crc valid t.maglev
  IsServing dramblast_mode t = IsReady crc t.ht lcore_id × (length t.backends ≡ table_size)
  IsServing none_mode t = Unit {0}

  -- the MAC that a frame has in a mode, under the bindings of the mode's table
  abbrev pub mac_in : Mode → Tables → List ℕ → ℕ
  mac_in maglev_mode t = mac_for (tracked crc valid t.maglev)
  mac_in dramblast_mode t = mac_for (binds crc t.ht)
  mac_in none_mode t = λ frame. 0xff

  all_forwarded : (frames : List (List ℕ)) → forwarded (λ frame. 0xff) frames ≡ length frames
  all_forwarded [] = refl
  all_forwarded (frame ∷ frames) = omega (arith, all_forwarded frames)

  module _ (addrs : List (List ℕ)) (dst_port : ℕ) {addr : List ℕ}
      (known : get_elem? addrs dst_port ≡ some addr) (six : length addr ≡ 6) where
    none_burst-runs :
        (frames : List (List ℕ))
        → AreFrames frames
        → (frames' : List (List ℕ)) × (none_burst crc addrs dst_port frames ≡ some frames')
          × AreMarked addrs dst_port (λ frame. 0xff) frames frames'
    unfolding none_burst
    none_burst-runs [] h = ([], refl, tt)
    none_burst-runs (frame ∷ frames) h =
        let long : 12 ≤ length frame = let l = h.0.enough in omega arith in
        let (frame', e, _) = mac_updating-runs addrs frame dst_port 0xff long known six in
        let (frames', rest, marked) = none_burst-runs frames h.1 in
        (frame' ∷ frames', rw (e, rest) refl, (inr (omega arith, e), marked))

    -- a round without frames
    nothing :
        (mode : Mode) (t : Tables) (frames : List (List ℕ))
        → length frames ≡ 0
        → AreMarked addrs dst_port (mac_in mode t) frames frames
          × (forwarded (mac_in mode t) frames ≡ 0)
    nothing mode t [] h = (tt, refl)
    nothing mode t (frame ∷ frames) h = absurd (omega arith)

    map_burst-Counts :
        (mode : Mode) (t : Tables) (mac_addrs : List ℕ) (s : PortStatistics)
        (frames : List (List ℕ))
        → IsServing mode t
        → AreFrames frames
        → length frames ≤ length mac_addrs
        → length frames < 2 ^ 64
        → (t' : Tables) × (s' : PortStatistics) × (frames' : List (List ℕ)) × (map_burst crc addrs
              dst_port capacity lcore_id mode t mac_addrs s frames
            ≡ some (t', s', frames'))
          × IsServing mode t'
          × AreMarked addrs dst_port (mac_in mode t') frames frames'
          × Counts (length frames) (forwarded (mac_in mode t') frames) s s'
    unfolding map_burst
    map_burst-Counts maglev_mode t mac_addrs s frames ok h room small =
        let (m', s', frames', e, ok', _, marked, counts) =
          maglev_burst-Counts crc valid addrs dst_port known six frames t.maglev s h ok in
        (record t { maglev = m' }, s', frames', rw e refl, ok', marked, counts)
    map_burst-Counts dramblast_mode t mac_addrs s frames ok h room small =
        let (ht', s', frames', e, ok', _, marked, counts) =
          dramblast_burst-Counts crc t.backends ok.1 lcore_id addrs dst_port known six t.ht
            mac_addrs s frames ok.0 h room small in
        (record t { ht = ht' }, s', frames', rw e refl, (ok', ok.1), marked, counts)
    map_burst-Counts none_mode t mac_addrs s frames ok h room small =
        let (frames', e, marked) = none_burst-runs frames h in
        let all = all_forwarded frames in
        (
          t,
          record s { fwded = u64 (s.fwded + length frames) },
          frames',
          rw e refl,
          tt,
          marked,
          record { few = omega arith; fwded = omega arith; unmapped = omega arith; others = refl },
        )

    -- A round of the main loop for a queue that returned at most as many frames as `mac_addrs` has
    -- places, and fewer than 2 ^ 64, each long enough for the headers that the code reads, where the
    -- port has an address, the table of the mode is ready, and at most as many frames are sent as were
    -- received, makes no access out of range, and the table is ready for the next round. Each frame
    -- has a MAC: that of its flow's binding in the table of the mode afterwards, 0 if there is none,
    -- and 0xff in the mode `none`. A frame whose MAC is not 0 has its MACs updated, any other stays. Up
    -- to the wrap-around at 64 bits, `fwded` grows by the number of frames whose MAC is not 0,
    -- `unmapped` by that of the others, `tx` by `nb_tx`, `tx_dropped` by the frames that were not sent,
    -- `rx` by the frames, `rx_cnt` by 1, and `hash_tsc` by the cycles, if there were frames;
    -- `rx_dropped` stays.
    pub process_burst-Accounts :
        (mode : Mode) (t : Tables) (mac_addrs : List ℕ) (cycles nb_tx : ℕ) (s : PortStatistics)
        (frames : List (List ℕ))
        → IsServing mode t
        → AreFrames frames
        → length frames ≤ length mac_addrs
        → length frames < 2 ^ 64
        → nb_tx ≤ length frames
        → (t' : Tables) × (s' : PortStatistics) × (frames' : List (List ℕ)) × (process_burst crc
              addrs dst_port capacity lcore_id mode t mac_addrs cycles nb_tx s frames
            ≡ some (t', s', frames'))
          × IsServing mode t'
          × AreMarked addrs dst_port (mac_in mode t') frames frames'
          × Accounts (length frames) nb_tx (forwarded (mac_in mode t') frames) cycles s s'
    unfolding process_burst
    process_burst-Accounts mode t mac_addrs cycles nb_tx s frames ready h room small most =
        elim (Bool-cases (ltb 0 (length frames))) [
          | inr p ↦
              let none_there : length frames ≡ 0 = ground arith in
              let (marked, few) = nothing mode t frames none_there in
              (
                t,
                record s { rx_cnt = u64 (s.rx_cnt + 1) },
                frames,
                rw p refl,
                ready,
                marked,
                record {
                  most = most;
                  few = omega (arith, few);
                  tx = omega arith;
                  tx_dropped = omega arith;
                  fwded = omega (arith, few);
                  unmapped = omega (arith, few);
                  rx = omega arith;
                  rx_cnt = omega arith;
                  hash_tsc = rw none_there (omega arith);
                  rx_dropped = refl;
                },
              )
          | inl p ↦
              let s1 : PortStatistics = record s {
                rx_cnt = u64 (s.rx_cnt + 1);
                rx = u64 (s.rx + length frames);
              } in
              let (t', s2, frames', e, ready', marked, c) =
                map_burst-Counts mode t mac_addrs s1 frames ready h room small in
              let s3 : PortStatistics = record s2 { hash_tsc = u64 (s2.hash_tsc + cycles) } in
              let sends = count_tx-Sends (length frames) nb_tx s3 most in
              let some_there : length frames ≢ 0 = ground arith in
              (
                t',
                count_tx (length frames) nb_tx s3,
                frames',
                rw (p, e) refl,
                ready',
                marked,
                record {
                  most = most;
                  few = c.few;
                  tx = omega (arith, sends.tx, ap (λ x. x.tx) c.others);
                  tx_dropped = omega (arith, sends.tx_dropped, ap (λ x. x.tx_dropped) c.others);
                  fwded = omega (arith, sends.fwded, c.fwded);
                  unmapped = omega (arith, sends.unmapped, c.unmapped);
                  rx = omega (arith, sends.rx, ap (λ x. x.rx) c.others);
                  rx_cnt = omega (arith, sends.rx_cnt, ap (λ x. x.rx_cnt) c.others);
                  hash_tsc =
                      rw (ne→== (length frames) 0 some_there)
                        (omega (arith, sends.hash_tsc, ap (λ x. x.hash_tsc) c.others));
                  rx_dropped = sends.rx_dropped ∙ ap (λ x. x.rx_dropped) c.others;
                },
              )
        ]
