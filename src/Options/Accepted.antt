-- ===== src/Options/Accepted.antt =====
-- What holds of the settings, once the options were accepted.
use net_blast.Base.{
  ◌≡◌, ◌≢◌, ◌⊎◌, inl, inr, refl, arith, ◌==◌, ==→ne, true, false, Bool-cases, List, [], ◌∷◌,
  Option-cases, none, some, some_inj, u32, u64, subst,
}
use net_blast.Capacity.{IsCapacity}
use net_blast.Capacity.Accepted.{parse_capacity-IsCapacity}
use net_blast.L2fwd.{mode_of}
use net_blast.Options.{
  ModeName, maglev, sashstore, dramblast, no_mode, other, Opt, mac_updating, mode, capacity,
  port_mask, queues, period, unknown, Settings, defaults, set_mode, parse_option, l2fwd_parse_args,
  init_mode,
}

-- Both tables may be set up with the capacity, and each port has a queue.
pub record AreUsable (s : Settings) : Type 0 where
  pub capacity_ok : IsCapacity s.capacity_set
  pub some_queue : s.queues_per_port ≢ 0

defaults-AreUsable : AreUsable defaults
defaults-AreUsable = record {
  capacity_ok = record { exponent = 24; small = omega arith; power = refl };
  some_queue = omega arith;
}

set_mode-AreUsable :
    (name : ModeName) {s s' : Settings} → AreUsable s → set_mode name s ≡ some s' → AreUsable s'
unfolding set_mode
set_mode-AreUsable maglev {s} v h =
    subst AreUsable (some_inj h) (record { capacity_ok = v.capacity_ok; some_queue = v.some_queue })
set_mode-AreUsable sashstore {s} v h =
    subst AreUsable (some_inj h) (record { capacity_ok = v.capacity_ok; some_queue = v.some_queue })
set_mode-AreUsable dramblast {s} v h =
    subst AreUsable (some_inj h) (record { capacity_ok = v.capacity_ok; some_queue = v.some_queue })
set_mode-AreUsable no_mode {s} v h =
    subst AreUsable (some_inj h) (record { capacity_ok = v.capacity_ok; some_queue = v.some_queue })
set_mode-AreUsable other v h = absurd (cc)

parse_option-AreUsable :
    (opt : Opt) {s s' : Settings} → AreUsable s → parse_option opt s ≡ some s' → AreUsable s'
unfolding parse_option
parse_option-AreUsable (mac_updating on) v h =
    subst AreUsable (some_inj h) (record { capacity_ok = v.capacity_ok; some_queue = v.some_queue })
parse_option-AreUsable (mode name) v h = set_mode-AreUsable name v h
parse_option-AreUsable (capacity c) {s} v h =
    elim (parse_capacity-IsCapacity (u64 c) (omega arith)) [
      | inl (e, ok) ↦
          subst AreUsable (some_inj (rw e at h))
            (record { capacity_ok = ok; some_queue = v.some_queue })
      | inr (e, _) ↦ let refused = rw e at h in absurd (cc)
    ]
parse_option-AreUsable (port_mask m) {s} v h = elim (Bool-cases (u32 m == 0)) [
  | inl p ↦ let refused = rw p at h in absurd (cc)
  | inr p ↦
      subst AreUsable (some_inj (rw p at h))
        (record { capacity_ok = v.capacity_ok; some_queue = v.some_queue })
]
parse_option-AreUsable (queues n) {s} v h = elim (Bool-cases (u32 n == 0)) [
  | inl p ↦ let refused = rw p at h in absurd (cc)
  | inr p ↦
      subst AreUsable (some_inj (rw p at h))
        (record { capacity_ok = v.capacity_ok; some_queue = ==→ne _ _ p })
]
parse_option-AreUsable (period t) v h =
    subst AreUsable (some_inj h) (record { capacity_ok = v.capacity_ok; some_queue = v.some_queue })
parse_option-AreUsable unknown v h = absurd (cc)

all_options :
    (opts : List Opt) {s s' : Settings}
    → AreUsable s
    → l2fwd_parse_args opts s ≡ some s'
    → AreUsable s'
unfolding l2fwd_parse_args
all_options [] v h = subst AreUsable (some_inj h) v
all_options (opt ∷ opts) {s} v h = elim (Option-cases (parse_option opt s)) [
  | inl e ↦ let refused = rw e at h in absurd (cc)
  | inr (s1, e) ↦ all_options opts (parse_option-AreUsable opt v e) (rw e at h)
]

-- Whatever the options are, if `l2fwd_parse_args` accepts them, the capacity is a power of two up to
-- 2 ^ 32 and each port has at least one queue.
pub parse_args-AreUsable :
    (opts : List Opt) {s : Settings} → l2fwd_parse_args opts defaults ≡ some s → AreUsable s
parse_args-AreUsable opts h = all_options opts defaults-AreUsable h

-- Whatever modes were enabled, `main` either sets up the tables of the mode that the main loop
-- runs in, or it refuses, which it does if sashstore is enabled and maglev is not.
pub init_mode-mode_of :
    (s : Settings)
    → (init_mode s ≡ some (mode_of s.maglev_enabled s.dramblast_enabled))
      ⊎ ((init_mode s ≡ none) × (s.sashstore_enabled ≡ true) × (s.maglev_enabled ≡ false))
unfolding init_mode
init_mode-mode_of s = elim (Bool-cases s.maglev_enabled) [
  | inl p ↦ inl (rw p refl)
  | inr p ↦ elim (Bool-cases s.sashstore_enabled) [
    | inl q ↦ inr (rw (p, q) refl, q, p)
    | inr q ↦ elim (Bool-cases s.dramblast_enabled) [
      | inl r ↦ inl (rw (p, q, r) refl)
      | inr r ↦ inl (rw (p, q, r) refl)
    ]
  ]
]
