-- ===== src/L2fwd.antt =====
-- l2fwd/main.c: what a worker core does with a burst of frames that it received from one queue of one
-- port. The frames are the lists of their bytes; the calls of DPDK that receive and send are the
-- caller's, and what they return is passed in.
pub mod Mac
pub mod Marks
pub mod Tracking
pub mod Collect
pub mod Update
pub mod Batch
pub mod Burst
use net_blast.Base.{
  ℕ, zero, suc, ◌+◌, ◌-◌, ◌/◌, ◌%◌, ltb, ◌==◌, Bool, true, false, List, [], ◌∷◌, length, get_elem?,
  set, ◌>>=◌, Option, none, some, if◌then◌else◌, u64, sub64,
}
use net_blast.Buffer.{low_bytes, store_bytes}
use net_blast.PacketTool.{flowhash}
use net_blast.Conshash.{LookUpTable}
use net_blast.Maglev.{Maglev, maglev_process_frame}
use net_blast.Dramblast.{Arg, Ht}
use net_blast.Dramblast.Frames.{dramblast_process_frames}

-- `struct l2fwd_port_statistics`
pub record PortStatistics : Type 0 where
  pub tx : ℕ
  pub rx : ℕ
  pub rx_cnt : ℕ
  pub fwded : ℕ
  pub unmapped : ℕ
  pub rx_dropped : ℕ
  pub tx_dropped : ℕ
  pub hash_tsc : ℕ

-- `addrs` is `l2fwd_ports_eth_addr`. The store of the MAC is one of 64 bits.
unfoldable pub l2fwd_mac_updating : List (List ℕ) → List ℕ → ℕ → ℕ → Option (List ℕ)
l2fwd_mac_updating addrs frame dest_portid mac = store_bytes frame 0 (low_bytes 8 mac) >>= λ frame'.
    get_elem? addrs dest_portid >>= λ addr. store_bytes frame' 6 addr

module _ (crc : ℕ → ℕ) (addrs : List (List ℕ)) (dst_port : ℕ) where
  -- what the mode `maglev` does with a frame for which it has the MAC `mac`: the counters and the
  -- frame
  unfoldable pub mark_frame : PortStatistics → List ℕ → ℕ → Option (PortStatistics × List ℕ)
  mark_frame stats frame mac =
      if mac == 0
      then some (record stats { unmapped = u64 (stats.unmapped + 1) }, frame)
      else l2fwd_mac_updating addrs frame dst_port mac >>= λ frame'.
          some (record stats { fwded = u64 (stats.fwded + 1) }, frame')

  -- the loop of the mode `maglev`
  unfoldable pub maglev_burst :
      ℕ → Maglev → PortStatistics → List (List ℕ) → Option (Maglev × PortStatistics × List (List ℕ))
  maglev_burst capacity m stats [] = some (m, stats, [])
  maglev_burst capacity m stats (frame ∷ frames) =
      maglev_process_frame crc capacity m frame >>= λ r. mark_frame stats frame r.0 >>= λ s.
      maglev_burst capacity r.1 s.0 frames >>= λ rest. some (rest.0, rest.1, s.1 ∷ rest.2)

  -- The first loop of the mode `dramblast`, from the frame number `j` on: the arguments, and the
  -- numbers of their frames. `fn` counts the arguments.
  unfoldable pub collect_args : List (List ℕ) → ℕ → ℕ → Option (List Arg × List ℕ)
  collect_args [] j fn = some ([], [])
  collect_args (frame ∷ frames) j fn = flowhash frame >>= λ hash. elim (ltb 0 hash) [
    | true ↦ collect_args frames (j + 1) (fn + 1) >>= λ r.
        some (record { k = hash; id = fn } ∷ r.0, j ∷ r.1)
    | false ↦ collect_args frames (j + 1) fn
  ]

  -- The last loop of the mode `dramblast`, from the argument number `j` on: the frames, and how many
  -- of them have a backend.
  unfoldable pub update_frames :
      List ℕ → ℕ → List ℕ → List (List ℕ) → ℕ → Option (List (List ℕ) × ℕ)
  update_frames [] j mac_addrs frames found = some (frames, found)
  update_frames (i ∷ numbers) j mac_addrs frames found = get_elem? mac_addrs j >>= λ mac.
      elim (ltb 0 mac) [
        | true ↦ get_elem? frames i >>= λ frame.
            l2fwd_mac_updating addrs frame dst_port mac >>= λ frame'.
            update_frames numbers (j + 1) mac_addrs (set frames i frame') (found + 1)
        | false ↦ update_frames numbers (j + 1) mac_addrs frames found
      ]

  -- the mode `dramblast`, on the core `lcore_id`; `mac_addrs` is an array that holds anything
  unfoldable pub dramblast_burst :
      ℕ
      → LookUpTable
      → Ht
      → List ℕ
      → PortStatistics
      → List (List ℕ)
      → Option (Ht × PortStatistics × List (List ℕ))
  dramblast_burst lcore_id backends ht mac_addrs stats frames = collect_args frames 0 0 >>= λ c.
      (if ltb 0 (length c.0)
        then dramblast_process_frames crc backends ht c.0 mac_addrs lcore_id
        else some (ht, mac_addrs))
      >>= λ r. update_frames c.1 0 r.1 frames 0 >>= λ u. some (
        r.0,
        record stats {
          fwded = u64 (stats.fwded + u.1);
          unmapped = u64 (stats.unmapped + sub64 (length frames) u.1);
        },
        u.0,
      )

  -- the mode `none`, with the constant MAC 0xff
  unfoldable pub none_burst : List (List ℕ) → Option (List (List ℕ))
  none_burst [] = some []
  none_burst (frame ∷ frames) = l2fwd_mac_updating addrs frame dst_port 0xff >>= λ frame'.
      none_burst frames >>= λ rest. some (frame' ∷ rest)

-- The state that the modes keep: that of maglev.c, and that of dramblast.c.
pub record Tables : Type 0 where
  pub maglev : Maglev
  pub ht : Ht
  pub backends : LookUpTable

-- the modes, as the main loop tells them apart by its flags
pub data Mode : Type 0 where
  maglev_mode dramblast_mode none_mode : Mode

abbrev pub mode_of : Bool → Bool → Mode
mode_of maglev_enabled dramblast_enabled =
    if maglev_enabled then maglev_mode else if dramblast_enabled then dramblast_mode else none_mode

-- The counters behind the call of rte_eth_tx_burst, which sent `nb_tx` of the `nb_rx` frames; the
-- others are freed.
unfoldable pub count_tx : ℕ → ℕ → PortStatistics → PortStatistics
count_tx nb_rx nb_tx s =
    let dropped =
      if ltb nb_tx nb_rx
      then record s { tx_dropped = u64 (s.tx_dropped + (nb_rx - nb_tx)) }
      else s in
    if ltb 0 nb_tx then record dropped { tx = u64 (dropped.tx + nb_tx) } else dropped

module _ (crc : ℕ → ℕ) (addrs : List (List ℕ)) (dst_port : ℕ) (capacity lcore_id : ℕ) where
  -- the branches for the modes
  unfoldable pub map_burst :
      Mode
      → Tables
      → List ℕ
      → PortStatistics
      → List (List ℕ)
      → Option (Tables × PortStatistics × List (List ℕ))
  map_burst maglev_mode t mac_addrs s frames =
      maglev_burst crc addrs dst_port capacity t.maglev s frames >>= λ r.
      some (record t { maglev = r.0 }, r.1, r.2)
  map_burst dramblast_mode t mac_addrs s frames =
      dramblast_burst crc addrs dst_port lcore_id t.backends t.ht mac_addrs s frames >>= λ r.
      some (record t { ht = r.0 }, r.1, r.2)
  map_burst none_mode t mac_addrs s frames = none_burst crc addrs dst_port frames >>= λ frames'.
      some (t, record s { fwded = u64 (s.fwded + length frames) }, frames')

  -- The body of the loop over the queues of a core in `l2fwd_main_loop`, on the frames that
  -- rte_eth_rx_burst returned. `cycles` is what the two reads of the time stamp counter differ by, and
  -- `nb_tx` what rte_eth_tx_burst returns.
  unfoldable pub process_burst :
      Mode
      → Tables
      → List ℕ
      → ℕ
      → ℕ
      → PortStatistics
      → List (List ℕ)
      → Option (Tables × PortStatistics × List (List ℕ))
  process_burst mode t mac_addrs cycles nb_tx s frames =
      let counted = record s { rx_cnt = u64 (s.rx_cnt + 1) } in
      if ltb 0 (length frames)
      then (map_burst mode t mac_addrs (record counted { rx = u64 (s.rx + length frames) }) frames
          >>= λ r. some (
            r.0,
            count_tx (length frames) nb_tx (record r.1 { hash_tsc = u64 (r.1.hash_tsc + cycles) }),
            r.2,
          ))
      else some (t, counted, frames)
