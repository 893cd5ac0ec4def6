-- ===== src/Tests/Tracking.antt =====
-- maglev.c on a table of eight pairs.
use net_blast.Base.{
  ℕ, ◌≡◌, ◌≢◌, refl, arith, [], ◌∷◌, none, some, replicate, length-replicate, set, pos, minus_one,
  inl, inr,
}
use net_blast.WordTable.{zero_pair}
use net_blast.Hashmap.{maglev_hash, home, probe_index, insert_from, maglev_hashmap_insert}
use net_blast.Hashmap.Insert.{insert-eq}
use net_blast.Fnv.{fnv_1}
use net_blast.PacketTool.Flow.{flow_key, flowhash-flow_key}
use net_blast.Maglev.{Maglev, maglev_init, maglev_process_frame}
use net_blast.Maglev.Frames.{IsMaglev, tracked, Processes, process_frame-Processes}
use net_blast.Maglev.Affinity.{run, init-IsMaglev, run-keeps}
use net_blast.Tests.Setup.{crc, eight, fresh, fresh-IsTable}
use net_blast.Tests.Packets.{udp, udp-IsFrame, udp-IsFlow}

abbrev start : Maglev
start = maglev_init 8 (replicate 8 (record { key = 3; value = 9 })) (replicate 65537 0)

init-IsMaglev_example : IsMaglev crc eight start × (tracked crc eight start 5 ≡ none)
init-IsMaglev_example =
    init-IsMaglev crc eight (replicate 8 (record { key = 3; value = 9 })) (replicate 65537 0) 5
      (length-replicate 8 _) (length-replicate 65537 0) (omega arith)

start-IsMaglev : IsMaglev crc eight start
start-IsMaglev =
    (init-IsMaglev crc eight (replicate 8 (record { key = 3; value = 9 })) (replicate 65537 0) 5
      (length-replicate 8 _) (length-replicate 65537 0) (omega arith)).0

h_ne : fnv_1 (flow_key udp) ≢ 0
unfolding fnv_1 net_blast.Fnv.fnv_1_multi net_blast.Fnv.char_to_u64 replicate
h_ne = omega arith

process_frame-Processes_example :
    (mac : ℕ) × (m' : Maglev) × (maglev_process_frame crc 8 start udp ≡ some (mac, m'))
    × Processes crc eight start (fnv_1 (flow_key udp)) mac m'
process_frame-Processes_example =
    process_frame-Processes crc eight start start-IsMaglev udp (fnv_1 (flow_key udp))
      (flowhash-flow_key udp udp-IsFrame udp-IsFlow) h_ne

-- the table after the flow 13 was tracked
abbrev pub one_flow : Maglev
one_flow = record {
  conntrack = set fresh 5 (record { key = 13; value = 0xff });
  lookup = replicate 65537 0xff;
}

stored_flow : maglev_hashmap_insert crc 8 fresh 13 0xff ≡ some (pos 0, one_flow.conntrack)
unfolding maglev_hashmap_insert insert_from home maglev_hash probe_index
    net_blast.WordTable.try_pair replicate
stored_flow = refl

pub one_flow-IsMaglev : IsMaglev crc eight one_flow
one_flow-IsMaglev = record {
  map = (insert-eq crc eight fresh (fresh-IsTable _) 13 (omega arith) 0xff stored_flow).table;
  backends = length-replicate 65537 0xff;
}

flow_13 : tracked crc eight one_flow 13 ≡ some 0xff
flow_13 =
    let r = insert-eq crc eight fresh (fresh-IsTable _) 13 (omega arith) 0xff stored_flow in
    elim r.effect [
      | inl (_, update) ↦ update 13 (omega arith)
      | inr (failed, _, _) ↦ absurd (pos_ne failed)
    ]
  where
    pos_ne : pos 0 ≢ minus_one
    pos_ne e = cc

run-keeps_example :
    (m' : Maglev) × (run crc 8 one_flow (udp ∷ udp ∷ []) ≡ some m')
    × IsMaglev crc eight m'
    × (tracked crc eight m' 13 ≡ some 0xff)
run-keeps_example =
    run-keeps crc eight (udp ∷ udp ∷ []) one_flow (udp-IsFrame, (udp-IsFrame, tt)) one_flow-IsMaglev
      13 0xff (omega arith) flow_13
