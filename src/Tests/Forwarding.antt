-- ===== src/Tests/Forwarding.antt =====
-- Bursts through the forwarder.
use net_blast.Base.{
  ℕ, ◌≡◌, ◌≤◌, ◌++◌, ◌∷◌, [], refl, arith, List, length, length-replicate, replicate, some,
}
use net_blast.Dramblast.{Ht}
use net_blast.Maglev.Affinity.{AreFrames}
use net_blast.Buffer.{low_bytes}
use net_blast.L2fwd.{
  PortStatistics, l2fwd_mac_updating, dramblast_burst, Tables, dramblast_mode, process_burst,
}
use net_blast.L2fwd.Mac.{mac_updating_lem}
use net_blast.L2fwd.Marks.{mac_for, forwarded, AreMarked, Counts}
use net_blast.Dramblast.Insert.Laws.{binds}
use net_blast.L2fwd.Batch.{IsReady, KeepsBindings, dramblast_burst-Counts}
use net_blast.L2fwd.Burst.{IsServing, mac_in, Accounts, process_burst-Accounts}
use net_blast.Tests.Setup.{crc, eight}
use net_blast.Tests.Packets.{udp, arp, udp-IsFrame, arp-IsFrame}
use net_blast.Tests.Lookups.{ht, args-IsBatch}
use net_blast.Tests.Tracking.{one_flow}

abbrev addrs : List (List ℕ)
addrs = (1 ∷ 2 ∷ 3 ∷ 4 ∷ 5 ∷ 6 ∷ []) ∷ []

abbrev zeros : PortStatistics
zeros = record {
  tx = 0;
  rx = 0;
  rx_cnt = 0;
  fwded = 0;
  unmapped = 0;
  rx_dropped = 0;
  tx_dropped = 0;
  hash_tsc = 0;
}

mac_updating_lem_example :
    l2fwd_mac_updating addrs (replicate 12 9 ++ (8 ∷ [])) 0 0xff
    ≡ some (low_bytes 6 0xff ++ ((1 ∷ 2 ∷ 3 ∷ 4 ∷ 5 ∷ 6 ∷ []) ++ (8 ∷ [])))
mac_updating_lem_example =
    mac_updating_lem addrs (replicate 12 9) (8 ∷ []) 0 0xff (length-replicate 12 9) refl refl

abbrev mac_addrs : List ℕ
mac_addrs = replicate 64 0

abbrev burst : List (List ℕ)
burst = udp ∷ arp ∷ []

burst-AreFrames : AreFrames burst
burst-AreFrames = (udp-IsFrame, (arp-IsFrame, tt))

ht-IsReady : IsReady crc ht 0
ht-IsReady =
    let b = args-IsBatch in
    record { store = b.store; roomy = b.roomy; own = (_, b.own, b.queue, b.idle) }

dramblast_burst-Counts_example :
    (ht' : Ht) × (s' : PortStatistics) × (frames' : List (List ℕ)) × (dramblast_burst crc addrs 0 0
        (replicate 65537 0xff)
        ht
        mac_addrs
        zeros
        burst
      ≡ some (ht', s', frames'))
    × IsReady crc ht' 0
    × KeepsBindings crc ht ht'
    × AreMarked addrs 0 (mac_for (binds crc ht')) burst frames'
    × Counts 2 (forwarded (mac_for (binds crc ht')) burst) zeros s'
dramblast_burst-Counts_example =
    dramblast_burst-Counts crc (replicate 65537 0xff) (length-replicate 65537 0xff) 0 addrs 0 refl
      refl ht mac_addrs zeros burst ht-IsReady burst-AreFrames room (omega arith)
  where
    room : length burst ≤ length mac_addrs
    room = omega (arith, length-replicate {A = ℕ} 64 0)

abbrev tables : Tables
tables = record { maglev = one_flow; ht = ht; backends = replicate 65537 0xff }

process_burst-Accounts_example :
    (t' : Tables) × (s' : PortStatistics) × (frames' : List (List ℕ)) × (process_burst crc addrs 0 8
        0 dramblast_mode tables mac_addrs 1000 1 zeros burst
      ≡ some (t', s', frames'))
    × IsServing crc eight 0 dramblast_mode t'
    × AreMarked addrs 0 (mac_in crc eight 0 dramblast_mode t') burst frames'
    × Accounts 2 1 (forwarded (mac_in crc eight 0 dramblast_mode t') burst) 1000 zeros s'
process_burst-Accounts_example =
    process_burst-Accounts crc eight 0 addrs 0 refl refl dramblast_mode tables mac_addrs 1000 1
      zeros burst (ht-IsReady, length-replicate 65537 0xff) burst-AreFrames room (omega arith)
      (omega arith)
  where
    room : length burst ≤ length mac_addrs
    room = omega (arith, length-replicate {A = ℕ} 64 0)
