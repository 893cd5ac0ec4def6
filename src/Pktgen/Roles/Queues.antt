-- ===== src/Pktgen/Roles/Queues.antt =====
-- Which roles and queues the workers get, and which queues are set up.
use native.Mathlib.Nat.{zero-mod}
use net_blast.Base.{
  ne→==, not-ltb, ℕ, zero, suc, ◌+◌, ◌/◌, ◌^◌, ◌≤◌, ◌<◌, ◌≡◌, inl, inr, refl, ap, ap₂, ◌∙◌, sym,
  subst, arith, Bool, true, false, ◌&&◌, Bool-cases, List, [], ◌∷◌, length, get_or,
  length-replicate, get_or-replicate, replicate, some, ◌==◌, ==→eq,
}
use net_blast.Pktgen.{CoreType, LcoreConf}
use net_blast.Pktgen.Roles.{
  Roles, no_queues, assign_workers, assign_roles, same_type, setup_queues, total_tx_queues,
}
use net_blast.Pktgen.Roles.Steps.{
  IsRoles, Counts, queues, queues_of, AreWorkers, assign_worker-IsWorker,
}
use net_blast.Pktgen.Roles.Senders.{total_tx_queues-count, count_range-AreWorkers}

-- the `n` numbers from `a` on
abbrev pub count_from : ℕ → ℕ → List ℕ
count_from a zero = []
count_from a (suc n) = a ∷ count_from (a + 1) n

same_type_eq : (a b : CoreType) → same_type a b ≡ true → a ≡ b
same_type_eq CoreType.tx CoreType.tx h = refl
same_type_eq CoreType.rx CoreType.rx h = refl
same_type_eq CoreType.tx CoreType.rx h = absurd (cc)
same_type_eq CoreType.rx CoreType.tx h = absurd (cc)

both : (p q : Bool) → p && q ≡ true → (p ≡ true) × (q ≡ true)
both true q h = (refl, h)
both false q h = absurd (cc)

-- The queues set up for a port continue those that were counted before.
abbrev Continues : List LcoreConf → Roles → Roles → CoreType → ℕ → Type 0
Continues confs s s' type p =
    (setup_queues type p confs ≡ count_from (queues type p s) (length (setup_queues type p confs)))
    × (queues type p s' ≡ queues type p s + length (setup_queues type p confs))

continue :
    (conf : LcoreConf) (confs : List LcoreConf) (s s1 s' : Roles) (type : CoreType) (p : ℕ)
    → Counts conf s s1
    → Continues confs s1 s' type p
    → Continues (conf ∷ confs) s s' type p
unfolding setup_queues
continue conf confs s s1 s' type p (queue, counts) (ids, total) =
    elim (Bool-cases (conf.port_id == p && same_type conf.type type)) [
      | inr n ↦ let same = rw n at (counts type p) in rw n (rw (← same) (ids, total))
      | inl y ↦
          let (port, kind) = both (conf.port_id == p) (same_type conf.type type) y in
          let mine : conf.queue_id ≡ queues type p s =
            queue ∙ ap₂ (λ t q. queues t q s) (same_type_eq _ _ kind) (==→eq _ _ port) in
          let more : queues type p s1 ≡ queues type p s + 1 = rw y at (counts type p) in
          rw y (
            ap₂ (λ x xs. x ∷ xs) mine
                (ids ∙ ap (λ a. count_from a (length (setup_queues type p confs))) more),
            omega (arith, total, more),
          )
    ]

module _ (max_ethports : ℕ) (mac : ℕ → List ℕ) (nb_ports nb_workers : ℕ) where
  module _ (ports : 0 < nb_ports) (known : nb_ports ≤ max_ethports) (fits : nb_ports < 2 ^ 16)
      (workers : nb_workers < 65535) where
    assign_workers-AreWorkers :
        (n i : ℕ) (s : Roles)
        → i + n ≤ nb_workers
        → IsRoles max_ethports mac nb_ports nb_workers i s
        → (confs : List LcoreConf) × (s' : Roles) × (assign_workers max_ethports mac nb_ports
              nb_workers n s
            ≡ some (confs, s'))
          × AreWorkers max_ethports mac nb_ports nb_workers i confs
          × (length confs ≡ n)
          × IsRoles max_ethports mac nb_ports nb_workers (i + n) s'
          × ((type : CoreType) (p : ℕ) → Continues confs s s' type p)
    unfolding assign_workers setup_queues
    assign_workers-AreWorkers zero i s h roles = (
      [],
      s,
      refl,
      tt,
      refl,
      subst (λ j. IsRoles max_ethports mac nb_ports nb_workers j s) (omega arith) roles,
      λ type p. (refl, omega arith),
    )
    assign_workers-AreWorkers (suc n) i s h roles =
        let (conf, s1, e, is_worker, roles1, counts) =
          assign_worker-IsWorker max_ethports mac nb_ports nb_workers ports known fits workers i s
            (omega arith) roles in
        let (confs, s', e', are_workers, len, roles2, continues) =
          assign_workers-AreWorkers n (i + 1) s1 (omega arith) roles1 in
        (
          conf ∷ confs,
          s',
          rw (e, e') refl,
          (is_worker, are_workers),
          ap suc len,
          subst (λ j. IsRoles max_ethports mac nb_ports nb_workers j s') (omega arith) roles2,
          λ type p. continue conf confs s s1 s' type p counts (continues type p),
        )

    abbrev start : Roles
    start = no_queues max_ethports mac nb_ports nb_workers

    empty : (type : CoreType) → queues_of type start ≡ replicate max_ethports 0
    empty CoreType.tx = refl
    empty CoreType.rx = refl

    no_entry : (type : CoreType) (p : ℕ) → queues type p start ≡ 0
    no_entry type p = ap (λ xs. get_or xs p 0) (empty type) ∙ get_or-replicate max_ethports p 0

    start-IsRoles : IsRoles max_ethports mac nb_ports nb_workers 0 start
    start-IsRoles = record {
      port = sym (zero-mod nb_ports);
      index = refl;
      sized = λ type. ap length (empty type) ∙ length-replicate max_ethports 0;
      few = λ type p. omega (arith, no_entry type p);
    }

    -- With at least one port, no more ports than DPDK's arrays have entries, and at least two
    -- workers, fewer than 65535, `main` gives every worker a role and a queue without an index out
    -- of range. The first half of the workers sends and the others receive, and the ports are taken
    -- in turn. Of every port, the queues that are set up for the workers that send, in order, are 0,
    -- 1, 2 and so on, exactly as many as rte_eth_dev_configure is told, and so are those for the
    -- workers that receive: no queue is shared, and none is missing. The number of all queues to
    -- send on, from which the number of flows is reckoned, is half the number of the workers.
    pub assign_roles-AreWorkers :
        2 ≤ nb_workers
        → (confs : List LcoreConf) × (s' : Roles) × (assign_roles max_ethports mac nb_ports
              nb_workers
            ≡ some (confs, s'))
          × AreWorkers max_ethports mac nb_ports nb_workers 0 confs
          × (length confs ≡ nb_workers)
          × ((type : CoreType) (p : ℕ)
              → setup_queues type p confs ≡ count_from 0 (get_or (queues_of type s') p 0))
          × (total_tx_queues nb_ports 0 s'.tx_queues_per_port ≡ some (nb_workers / 2))
    unfolding assign_roles
    assign_roles-AreWorkers two =
        let (confs, s', e, are_workers, len, roles, continues) =
          assign_workers-AreWorkers nb_workers 0 start (omega arith) start-IsRoles in
        (
          confs,
          s',
          rw (ne→== nb_ports 0 (omega arith), not-ltb nb_workers 2 two) e,
          are_workers,
          len,
          λ type p.
              let (ids, total) = continues type p in
              ids ∙ ap₂ count_from (no_entry type p) (omega (arith, total, no_entry type p)),
          total_tx_queues-count nb_ports 0 confs s' (omega (arith, roles.sized CoreType.tx)) (λ p.
                let (_, total) = continues CoreType.tx p in
                omega (arith, total, no_entry CoreType.tx p))
              ∙ ap some (
                  count_range-AreWorkers max_ethports mac nb_ports nb_workers ports confs 0
                    (omega (arith, len)) are_workers
                  ∙ omega arith),
        )
