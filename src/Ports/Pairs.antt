-- ===== src/Ports/Pairs.antt =====
-- The destination of the destination of a port is the port.
use net_blast.Base.{
  subst, All, ℕ, ◌+◌, ◌%◌, ◌^◌, ◌<◌, ◌≡◌, ◌≢◌, ◌∙◌, inl, inr, refl, sym, arith, ◌==◌, eq→==, ne→==,
  Bool-cases, List, [], ◌∷◌, length, length-set, get_or, get_or-set_self, get_or-set_ne, set,
  bit_and, if◌then◌else◌,
}
use net_blast.Ports.{Pairing, pair_port, pair_loop, pair_ports}

-- the enabled ports, in the order of the loop
abbrev pub enabled_of : ℕ → List ℕ → List ℕ
enabled_of mask [] = []
enabled_of mask (portid ∷ ports) =
    if bit_and mask (2 ^ portid) == 0 then enabled_of mask ports else portid ∷ enabled_of mask ports

-- No port is named twice.
abbrev pub AreDistinct : List ℕ → Type 0
AreDistinct [] = Unit {0}
AreDistinct (x ∷ xs) = All (λ y. y ≢ x) xs × AreDistinct xs

-- the loop over enabled ports
abbrev pair_all : List ℕ → Pairing → Pairing
pair_all [] p = p
pair_all (portid ∷ ports) p = pair_all ports (pair_port portid p)

pair_loop-enabled :
    (mask : ℕ) (ports : List ℕ) (p : Pairing)
    → pair_loop mask ports p ≡ pair_all (enabled_of mask ports) p
unfolding pair_loop
pair_loop-enabled mask [] p = refl
pair_loop-enabled mask (portid ∷ ports) p = elim (Bool-cases (bit_and mask (2 ^ portid) == 0)) [
  | inl e ↦ rw (pair_loop, e) (pair_loop-enabled mask ports p)
  | inr e ↦ rw (pair_loop, e) (pair_loop-enabled mask ports (pair_port portid p))
]

-- the array at the end
abbrev finish : Pairing → List ℕ
finish p = if p.nb_ports % 2 == 0 then p.dst_ports else set p.dst_ports p.last_port p.last_port

record ArePaired (before : List ℕ) (ports : List ℕ) (after : List ℕ) : Type 0 where
  back : All (λ x. get_or after (get_or after x 0) 0 ≡ x) ports
  others : (x : ℕ) → All (λ y. y ≢ x) ports → get_or after x 0 ≡ get_or before x 0

two :
    (a b last n : ℕ) (dst : List ℕ)
    → n % 2 ≡ 0
    → pair_port b (pair_port a (record { dst_ports = dst; last_port = last; nb_ports = n }))
      ≡ record { dst_ports = set (set dst b a) a b; last_port = a; nb_ports = n + 1 + 1 }
unfolding pair_port
two a b last n dst even =
    let odd : (n + 1) % 2 ≢ 0 = omega arith in
    rw (eq→== (n % 2) 0 even, ne→== ((n + 1) % 2) 0 odd) refl

paired :
    (ports dst : List ℕ) (last n : ℕ)
    → n % 2 ≡ 0
    → AreDistinct ports
    → All (λ x. x < length dst) ports
    → ArePaired dst ports
        (finish (pair_all ports (record { dst_ports = dst; last_port = last; nb_ports = n })))
unfolding pair_port
paired [] dst last n even d inside =
    rw (eq→== (n % 2) 0 even) (record { back = tt; others = λ x _. refl })
paired (a ∷ []) dst last n even d inside =
    let odd : (n + 1) % 2 ≢ 0 = omega arith in
    let here = get_or-set_self dst a a 0 inside.0 in
    rw (eq→== (n % 2) 0 even, ne→== ((n + 1) % 2) 0 odd)
      (record { back = (rw (here, here) refl, tt); others = λ x h. get_or-set_ne dst a x a 0 h.0 })
paired (a ∷ (b ∷ ports)) dst last n even d inside =
    let dst' = set (set dst b a) a b in
    let same : length dst' ≡ length dst = length-set (set dst b a) a b ∙ length-set dst b a in
    let r = paired ports dst' a (n + 1 + 1) (omega arith) d.1.1 (rw same inside.1.1) in
    let at_a : get_or dst' a 0 ≡ b =
      get_or-set_self (set dst b a) a b 0 (rw (length-set dst b a) inside.0) in
    let at_b : get_or dst' b 0 ≡ a =
      get_or-set_ne (set dst b a) a b b 0 (λ e. d.0.0 (sym e))
      ∙ get_or-set_self dst b a 0 inside.1.0 in
    let after_a = r.others a d.0.1 ∙ at_a in
    let after_b = r.others b d.1.0 ∙ at_b in
    subst (λ p. ArePaired dst (a ∷ (b ∷ ports)) (finish (pair_all ports p)))
      (sym (two a b last n dst even))
      (record {
        back = (rw (after_a, after_b) refl, (rw (after_b, after_a) refl, r.back));
        others = λ x h.
            r.others x h.1.1
            ∙ get_or-set_ne (set dst b a) a x b 0 h.0
            ∙ get_or-set_ne dst b x a 0 h.1.0;
      })

-- Where no port is named twice and each has a place in the array, after the pairing the destination of
-- the destination of an enabled port is the port itself.
pub pair_ports-back :
    (mask : ℕ) (ports zeros : List ℕ)
    → AreDistinct (enabled_of mask ports)
    → All (λ x. x < length zeros) (enabled_of mask ports)
    → All
        (λ x. get_or (pair_ports mask ports zeros) (get_or (pair_ports mask ports zeros) x 0) 0 ≡ x)
        (enabled_of mask ports)
unfolding pair_ports
pair_ports-back mask ports zeros d inside =
    subst (λ p. All (λ x. get_or (finish p) (get_or (finish p) x 0) 0 ≡ x) (enabled_of mask ports))
      (sym
        (pair_loop-enabled mask ports (record { dst_ports = zeros; last_port = 0; nb_ports = 0 })))
      (paired (enabled_of mask ports) zeros 0 0 refl d inside).back
