-- ===== src/Tests/Cores.antt =====
-- Ports in pairs, and two ports with one queue each on four cores.
use mathlib.Core.List.{Perm}
use net_blast.Base.{
  ◌++◌, length, get_or, All, ◌<◌, ℕ, ◌≡◌, ◌≤◌, refl, arith, ltb, Bool, false, List, [], ◌∷◌,
  length-replicate, replicate, get_or-replicate, some,
}
use net_blast.Ports.{pair_ports}
use net_blast.Ports.Pairs.{pair_ports-back}
use net_blast.Lcores.{Confs, is_skipped, next_lcore, assign_ports}
use net_blast.Lcores.Queues.{assigned, all_queues}
use net_blast.Lcores.Spread.{AreSpread, assign_ports-AreSpread, next_lcore_lem}

abbrev enabled : ℕ → Bool
enabled i = ltb i 4

abbrev none_yet : Confs
none_yet = replicate 4 []

none_yet-AreSpread : AreSpread 4 enabled 0 none_yet
none_yet-AreSpread = record {
  room = λ i. rw (get_or-replicate {A = List (ℕ × ℕ)} 4 i []) (omega arith);
  workers = λ i used. absurd (used (rw (get_or-replicate {A = List (ℕ × ℕ)} 4 i []) refl));
}

abbrev spread : Confs
spread = [] ∷ ((0, 0) ∷ []) ∷ ((1, 0) ∷ []) ∷ [] ∷ []

distributed : assign_ports 4 enabled 0 3 1 (0 ∷ 1 ∷ []) (none_yet, 0) ≡ some (spread, 3)
unfolding assign_ports net_blast.Lcores.assign_port net_blast.Lcores.assign_queue next_lcore
    is_skipped replicate
distributed = refl

assign_ports-AreSpread_example :
    AreSpread 4 enabled 0 spread
    × Perm (assigned spread) (all_queues 3 1 (0 ∷ 1 ∷ []) ++ assigned none_yet)
assign_ports-AreSpread_example =
    assign_ports-AreSpread 4 enabled 0 3 1 (0 ∷ 1 ∷ []) (none_yet, 0) none_yet-AreSpread distributed

third_free : is_skipped 4 enabled 0 none_yet 3 ≡ some false
unfolding is_skipped replicate
third_free = refl

next_lcore_lem_example : (rx : ℕ) × (next_lcore 4 enabled 0 5 none_yet 2 ≡ some rx) × (rx ≤ 3)
next_lcore_lem_example =
    next_lcore_lem 4 enabled 0 5 none_yet 2 3 (length-replicate 4 []) (omega arith) (omega arith)
      (omega arith) third_free

-- Ports 0, 1 and 3 of the mask 0b1011 are enabled.
pair_ports-back_example :
    All
      (λ x.
        get_or
          (pair_ports 11 (0 ∷ 1 ∷ 2 ∷ 3 ∷ []) (replicate 32 0))
          (get_or (pair_ports 11 (0 ∷ 1 ∷ 2 ∷ 3 ∷ []) (replicate 32 0)) x 0)
          0
        ≡ x)
      (0 ∷ 1 ∷ 3 ∷ [])
pair_ports-back_example =
    pair_ports-back 11 (0 ∷ 1 ∷ 2 ∷ 3 ∷ []) (replicate 32 0) (omega arith) inside
  where
    sized : length {A = ℕ} (replicate 32 0) ≡ 32
    sized = length-replicate 32 0

    inside : All (λ x. x < length {A = ℕ} (replicate 32 0)) (0 ∷ 1 ∷ 3 ∷ [])
    inside = (omega (arith, sized), (omega (arith, sized), (omega (arith, sized), tt)))
