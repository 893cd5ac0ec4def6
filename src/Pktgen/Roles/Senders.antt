-- ===== src/Pktgen/Roles/Senders.antt =====
-- How many queues there are to send on.
use native.Mathlib.Nat.{mod-lt}
use net_blast.Base.{
  ne→==, ℕ, zero, suc, ◌+◌, ◌-◌, ◌/◌, ◌≤◌, ◌<◌, ◌≡◌, inl, inr, refl, ap, ◌∙◌, arith, true, false,
  Bool-cases, List, [], ◌∷◌, length, get_elem?-eq-get_or, some, ltb, ◌==◌, ==→eq, ==→ne,
}
use net_blast.Pktgen.{CoreType, LcoreConf}
use net_blast.Pktgen.Roles.{Roles, same_type, setup_queues, total_tx_queues}
use net_blast.Pktgen.Roles.Steps.{queues, AreWorkers}

-- The queues to send on that are set up for the `n` ports from `a` on.
abbrev pub count_range : ℕ → ℕ → List LcoreConf → ℕ
count_range zero a confs = 0
count_range (suc n) a confs =
    length (setup_queues CoreType.tx a confs) + count_range n (a + 1) confs

-- One more configuration, for the ports that are not its own.
count_below :
    (n a : ℕ) (conf : LcoreConf) (confs : List LcoreConf)
    → conf.port_id < a
    → count_range n a (conf ∷ confs) ≡ count_range n a confs
unfolding setup_queues
count_below zero a conf confs h = refl
count_below (suc n) a conf confs h =
    rw (ne→== conf.port_id a (omega arith))
      (omega (arith, count_below n (a + 1) conf confs (omega arith)))

count_sender :
    (n a : ℕ) (conf : LcoreConf) (confs : List LcoreConf)
    → a ≤ conf.port_id
    → conf.port_id < a + n
    → same_type conf.type CoreType.tx ≡ true
    → count_range n a (conf ∷ confs) ≡ count_range n a confs + 1
unfolding setup_queues
count_sender zero a conf confs low high e = absurd (omega arith)
count_sender (suc n) a conf confs low high e = elim (Bool-cases (conf.port_id == a)) [
  | inl p ↦
      let here = ==→eq conf.port_id a p in
      rw (p, e) (omega (arith, count_below n (a + 1) conf confs (omega arith)))
  | inr p ↦
      let there = ==→ne conf.port_id a p in
      rw p (omega (arith, count_sender n (a + 1) conf confs (omega arith) (omega arith) e))
]

count_receiver :
    (n a : ℕ) (conf : LcoreConf) (confs : List LcoreConf)
    → same_type conf.type CoreType.tx ≡ false
    → count_range n a (conf ∷ confs) ≡ count_range n a confs
unfolding setup_queues
count_receiver zero a conf confs e = refl
count_receiver (suc n) a conf confs e = elim (Bool-cases (conf.port_id == a)) [
  | inl p ↦
      rw (p, e)
        (ap (λ m. length (setup_queues CoreType.tx a confs) + m)
          (count_receiver n (a + 1) conf confs e))
  | inr p ↦ rw p (
      ap (λ m. length (setup_queues CoreType.tx a confs) + m)
        (count_receiver n (a + 1) conf confs e))
]

pub total_tx_queues-count :
    (n a : ℕ) (confs : List LcoreConf) (s : Roles)
    → a + n ≤ length s.tx_queues_per_port
    → ((p : ℕ) → queues CoreType.tx p s ≡ length (setup_queues CoreType.tx p confs))
    → total_tx_queues n a s.tx_queues_per_port ≡ some (count_range n a confs)
unfolding total_tx_queues
total_tx_queues-count zero a confs s h e = refl
total_tx_queues-count (suc n) a confs s h e =
    rw
      (
        get_elem?-eq-get_or s.tx_queues_per_port a 0 (omega arith),
        total_tx_queues-count n (a + 1) confs s (omega arith) e,
      )
      (ap (λ m. some (m + count_range n (a + 1) confs)) (e a))

module _ (max_ethports : ℕ) (mac : ℕ → List ℕ) (nb_ports nb_workers : ℕ) where
  -- The senders among the workers from the number `i` on.
  pub count_range-AreWorkers :
      0 < nb_ports
      → (confs : List LcoreConf) (i : ℕ) → i + length confs ≡ nb_workers
      → AreWorkers max_ethports mac nb_ports nb_workers i confs
      → count_range nb_ports 0 confs ≡ nb_workers / 2 - i
  unfolding setup_queues
  count_range-AreWorkers ports [] i e h = nobody nb_ports 0 ∙ omega arith
    where
      nobody : (n a : ℕ) → count_range n a [] ≡ 0
      nobody zero a = refl
      nobody (suc n) a = omega (arith, nobody n (a + 1))
  count_range-AreWorkers ports (conf ∷ confs) i e ((role, port, _), h) =
      let rest = count_range-AreWorkers ports confs (i + 1) (omega arith) h in
      let inside = mod-lt i ports in
      elim (Bool-cases (ltb i (nb_workers / 2))) [
        | inl p ↦
            let sender =
              count_sender nb_ports 0 conf confs (omega arith) (omega arith)
                (ap (λ t. same_type t CoreType.tx) role ∙ rw p refl) in
            ground (arith, sender, rest)
        | inr p ↦
            let receiver =
              count_receiver nb_ports 0 conf confs
                (ap (λ t. same_type t CoreType.tx) role ∙ rw p refl) in
            ground (arith, receiver, rest)
      ]
