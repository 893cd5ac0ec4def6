-- ===== src/Pktgen/Roles/Steps.antt =====
-- What one round of the loop over the workers does.
use native.Mathlib.Nat.{mod-lt, mod-add-mod}
use net_blast.Base.{
  ℕ, ◌+◌, ◌%◌, ◌^◌, ◌≤◌, ◌<◌, ◌≡◌, inl, inr, refl, ap, ◌∙◌, sym, subst, arith, Bool, true, false,
  ◌&&◌, Bool-cases, List, [], ◌∷◌, length, length-set, get_or, get_elem?-eq-get_or, get_or-set_self,
  get_or-set_ne, set, some, if◌then◌else◌, ◌==◌, ==→eq, ==→ne, u16, u32,
}
use net_blast.Pktgen.{CoreType, LcoreConf}
use net_blast.Pktgen.Roles.{Roles, post_increment, take_queue, role_of, assign_worker, same_type}

-- the numbers of queues per port, for a kind of cores
abbrev pub queues_of : CoreType → Roles → List ℕ
queues_of CoreType.tx s = s.tx_queues_per_port
queues_of CoreType.rx s = s.rx_queues_per_port

-- An entry of an array after it was counted up.
abbrev IsBumped : List ℕ → ℕ → List ℕ → Type 0
IsBumped xs i xs' =
    (length xs' ≡ length xs)
    × ((p : ℕ) → get_or xs' p 0 ≡ (if i == p then get_or xs p 0 + 1 else get_or xs p 0))

post_increment-IsBumped :
    (xs : List ℕ) (i : ℕ)
    → i < length xs
    → get_or xs i 0 < 65535
    → (xs' : List ℕ) × (post_increment xs i ≡ some (get_or xs i 0, xs')) × IsBumped xs i xs'
unfolding post_increment
post_increment-IsBumped xs i inside small = (
  set xs i (u16 (get_or xs i 0 + 1)),
  rw (get_elem?-eq-get_or xs i 0 inside) refl,
  (
    length-set xs i _,
    λ p. elim (Bool-cases (i == p)) [
      | inl e ↦ rw e (rw (sym (==→eq i p e)) (get_or-set_self xs i _ 0 inside ∙ omega arith))
      | inr e ↦ rw e (get_or-set_ne xs i p _ 0 (==→ne i p e))
    ],
  ),
)

-- A queue was taken of a port by a core of a kind.
record Takes (type : CoreType) (portid : ℕ) (s s' : Roles) : Type 0 where
  sized : (other : CoreType) → length (queues_of other s') ≡ length (queues_of other s)
  entries :
      (other : CoreType) (p : ℕ)
      → get_or (queues_of other s') p 0 ≡ (
          if portid == p && same_type type other
          then get_or (queues_of other s) p 0 + 1
          else get_or (queues_of other s) p 0)

-- The test of the port alone, or with a test of the kind that fails.
and_true : {A : Type 0} (b : Bool) (x y : A) → (if b && true then x else y) ≡ (if b then x else y)
and_true true x y = refl
and_true false x y = refl

and_false : {A : Type 0} (b : Bool) (x y : A) → (if b && false then x else y) ≡ y
and_false true x y = refl
and_false false x y = refl

take_queue-Takes :
    (type : CoreType) (portid : ℕ) (s : Roles)
    → portid < length (queues_of type s)
    → get_or (queues_of type s) portid 0 < 65535
    → (s' : Roles) × (take_queue type portid s ≡ some (get_or (queues_of type s) portid 0, s'))
      × Takes type portid s s'
unfolding take_queue
take_queue-Takes CoreType.tx portid s inside small =
    let (xs, e, b) = post_increment-IsBumped s.tx_queues_per_port portid inside small in
    (
      record s { tx_queues_per_port = xs },
      rw e refl,
      record {
        sized = λ other.
            elim other
              as (λ o.
                length (queues_of o (record s { tx_queues_per_port = xs }))
                ≡ length (queues_of o s)) [ CoreType.tx ↦ b.0 | CoreType.rx ↦ refl ];
        entries = λ other p.
            elim other
              as (λ o. get_or (queues_of o (record s { tx_queues_per_port = xs })) p 0 ≡ (
                if portid == p && same_type CoreType.tx o
                then get_or (queues_of o s) p 0 + 1
                else get_or (queues_of o s) p 0)) [
                  | CoreType.tx ↦ b.1 p ∙ sym (and_true (portid == p) _ _)
                  | CoreType.rx ↦ sym (and_false (portid == p) _ _)
                ];
      },
    )
take_queue-Takes CoreType.rx portid s inside small =
    let (xs, e, b) = post_increment-IsBumped s.rx_queues_per_port portid inside small in
    (
      record s { rx_queues_per_port = xs },
      rw e refl,
      record {
        sized = λ other.
            elim other
              as (λ o.
                length (queues_of o (record s { rx_queues_per_port = xs }))
                ≡ length (queues_of o s)) [ CoreType.tx ↦ refl | CoreType.rx ↦ b.0 ];
        entries = λ other p.
            elim other
              as (λ o. get_or (queues_of o (record s { rx_queues_per_port = xs })) p 0 ≡ (
                if portid == p && same_type CoreType.rx o
                then get_or (queues_of o s) p 0 + 1
                else get_or (queues_of o s) p 0)) [
                  | CoreType.tx ↦ sym (and_false (portid == p) _ _)
                  | CoreType.rx ↦ b.1 p ∙ sym (and_true (portid == p) _ _)
                ];
      },
    )

-- The arrays do not depend on the other variables.
same_queues :
    (type : CoreType) (s : Roles) (port_rr worker_idx : ℕ)
    → queues_of type (record s { port_rr = port_rr; worker_idx = worker_idx }) ≡ queues_of type s
same_queues CoreType.tx s p w = refl
same_queues CoreType.rx s p w = refl

-- the entry of a port for a kind of cores
abbrev pub queues : CoreType → ℕ → Roles → ℕ
queues type p s = get_or (queues_of type s) p 0

-- The array entries after a worker with this configuration.
abbrev pub Counts : LcoreConf → Roles → Roles → Type 0
Counts conf s s' =
    (conf.queue_id ≡ queues conf.type conf.port_id s)
    × ((type : CoreType) (p : ℕ)
        → queues type p s' ≡ (
            if conf.port_id == p && same_type conf.type type
            then queues type p s + 1
            else queues type p s))

bump_le : (b : Bool) (n i : ℕ) → n ≤ i → (if b then n + 1 else n) ≤ i + 1
bump_le true n i h = omega arith
bump_le false n i h = omega arith

module _ (max_ethports : ℕ) (mac : ℕ → List ℕ) (nb_ports nb_workers : ℕ) where
  -- The variables before the worker number `i`.
  pub record IsRoles (i : ℕ) (s : Roles) : Type 0 where
    pub port : s.port_rr ≡ i % nb_ports
    pub index : s.worker_idx ≡ i
    pub sized : (type : CoreType) → length (queues_of type s) ≡ max_ethports
    pub few : (type : CoreType) (p : ℕ) → get_or (queues_of type s) p 0 ≤ i

  -- The role and the port of the worker number `i`.
  abbrev pub IsWorker : ℕ → LcoreConf → Type 0
  IsWorker i conf =
      (conf.type ≡ role_of max_ethports mac nb_ports nb_workers i)
      × (conf.port_id ≡ i % nb_ports)
      × (conf.port_mac ≡ mac (i % nb_ports))

  -- The workers from the number `i` on.
  abbrev pub AreWorkers : ℕ → List LcoreConf → Type 0
  AreWorkers i [] = Unit {0}
  AreWorkers i (conf ∷ confs) = IsWorker i conf × AreWorkers (i + 1) confs

  module _ (ports : 0 < nb_ports) (known : nb_ports ≤ max_ethports) (fits : nb_ports < 2 ^ 16)
      (workers : nb_workers < 65535) where
    next_port : (i : ℕ) → u16 ((i % nb_ports + 1) % nb_ports) ≡ (i + 1) % nb_ports
    next_port i = let l = mod-lt (i + 1) ports in omega (arith, mod-add-mod i nb_ports 1)

    pub assign_worker-IsWorker :
        (i : ℕ) (s : Roles)
        → i < nb_workers
        → IsRoles i s
        → (conf : LcoreConf) × (s' : Roles) × (assign_worker max_ethports mac nb_ports nb_workers s
            ≡ some (conf, s'))
          × IsWorker i conf
          × IsRoles (i + 1) s'
          × Counts conf s s'
    unfolding assign_worker
    assign_worker-IsWorker i s left roles =
        let type = role_of max_ethports mac nb_ports nb_workers s.worker_idx in
        let inside = mod-lt i ports in
        let (s1, e, takes) =
          take_queue-Takes type s.port_rr s (omega (arith, roles.sized type, roles.port))
            (omega (arith, roles.few type s.port_rr)) in
        let s2 : Roles = record s1 {
          port_rr = u16 ((s.port_rr + 1) % nb_ports);
          worker_idx = u32 (s.worker_idx + 1);
        } in
        let after : (t : CoreType) (p : ℕ)
            → queues t p s2
              ≡ (if s.port_rr == p && same_type type t then queues t p s + 1 else queues t p s) =
          λ t p. ap (λ xs. get_or xs p 0) (same_queues t s1 _ _) ∙ takes.entries t p in
        (
          record {
            type = type;
            port_id = s.port_rr;
            queue_id = queues type s.port_rr s;
            port_mac = mac s.port_rr;
          },
          s2,
          rw e refl,
          (
            ap (role_of max_ethports mac nb_ports nb_workers) roles.index,
            roles.port,
            ap mac roles.port,
          ),
          record {
            port = ap (λ p. u16 ((p + 1) % nb_ports)) roles.port ∙ next_port i;
            index = omega (arith, roles.index);
            sized = λ t. ap length (same_queues t s1 _ _) ∙ takes.sized t ∙ roles.sized t;
            few = λ t p.
                subst (λ n. n ≤ i + 1) (sym (after t p))
                  (bump_le (s.port_rr == p && same_type type t) _ i (roles.few t p));
          },
          (refl, after),
        )
