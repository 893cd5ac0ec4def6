-- ===== src/Ports.antt =====
-- l2fwd/main.c: the pairing of the enabled ports in `main`, which decides where each port's frames are
-- addressed to.
pub mod Pairs
use net_blast.Base.{ℕ, ◌+◌, ◌%◌, ◌^◌, ◌==◌, true, false, List, [], ◌∷◌, set, bit_and, if◌then◌else◌}

-- `l2fwd_dst_ports`, `last_port` and `nb_ports_in_mask`
pub record Pairing : Type 0 where
  pub dst_ports : List ℕ
  pub last_port : ℕ
  pub nb_ports : ℕ

-- the body of the loop for an enabled port
unfoldable pub pair_port : ℕ → Pairing → Pairing
pair_port portid p =
    if p.nb_ports % 2 == 0
    then record p { last_port = portid; nb_ports = p.nb_ports + 1 }
    else record p {
      dst_ports = set (set p.dst_ports portid p.last_port) p.last_port portid;
      nb_ports = p.nb_ports + 1;
    }

-- the loop over the ports that DPDK names
unfoldable pub pair_loop : ℕ → List ℕ → Pairing → Pairing
pair_loop mask [] p = p
pair_loop mask (portid ∷ ports) p = elim (bit_and mask (2 ^ portid) == 0) [
  | true ↦ pair_loop mask ports p
  | false ↦ pair_loop mask ports (pair_port portid p)
]

-- the loop, and the test for a port that is left over; `zeros` is the array after it was zeroed
unfoldable pub pair_ports : ℕ → List ℕ → List ℕ → List ℕ
pair_ports mask ports zeros =
    let p = pair_loop mask ports (record { dst_ports = zeros; last_port = 0; nb_ports = 0 }) in
    if p.nb_ports % 2 == 0 then p.dst_ports else set p.dst_ports p.last_port p.last_port
