-- ===== src/Options.antt =====
-- l2fwd/main.c: `l2fwd_parse_args`, and the choice of the mode in `main`. The list of the options is
-- what getopt_long returns one after the other, with the numbers that the C library reads from their
-- arguments.
pub mod Accepted
use net_blast.Base.{
  ℕ, ◌==◌, Bool, true, false, List, [], ◌∷◌, ◌>>=◌, Option, none, some, if◌then◌else◌, u32, u64,
}
use net_blast.Capacity.{parse_capacity, default_capacity}
use net_blast.L2fwd.{Mode, maglev_mode, dramblast_mode, none_mode}

-- the argument of -m, as the calls of strcmp tell it apart
pub data ModeName : Type 0 where
  maglev sashstore dramblast no_mode other : ModeName

pub data Opt : Type 0 where
  mac_updating : Bool → Opt
  mode : ModeName → Opt
  capacity : ℕ → Opt
  port_mask : ℕ → Opt
  queues : ℕ → Opt
  period : ℕ → Opt
  unknown : Opt

-- the static variables that the options set
pub record Settings : Type 0 where
  pub mac_updating_on : Bool
  pub enabled_port_mask : ℕ
  pub dramblast_enabled : Bool
  pub maglev_enabled : Bool
  pub sashstore_enabled : Bool
  pub queues_per_port : ℕ
  pub capacity_set : ℕ
  pub timer_period : ℕ

-- their initial values
abbrev pub defaults : Settings
defaults = record {
  mac_updating_on = true;
  enabled_port_mask = 0;
  dramblast_enabled = false;
  maglev_enabled = false;
  sashstore_enabled = false;
  queues_per_port = 1;
  capacity_set = default_capacity;
  timer_period = 1;
}

unfoldable pub set_mode : ModeName → Settings → Option Settings
set_mode maglev s = some (record s { maglev_enabled = true })
set_mode sashstore s = some (record s { sashstore_enabled = true })
set_mode dramblast s = some (record s { dramblast_enabled = true })
set_mode no_mode s =
    some (record s { dramblast_enabled = false; maglev_enabled = false; sashstore_enabled = false })
set_mode other s = none

-- the body of the switch; `none` is `return -1`
unfoldable pub parse_option : Opt → Settings → Option Settings
parse_option (mac_updating on) s = some (record s { mac_updating_on = on })
parse_option (mode name) s = set_mode name s
parse_option (capacity c) s =
    parse_capacity (u64 c) >>= λ accepted. some (record s { capacity_set = accepted })
parse_option (port_mask m) s =
    if u32 m == 0 then none else some (record s { enabled_port_mask = u32 m })
parse_option (queues n) s = if u32 n == 0 then none else some (record s { queues_per_port = u32 n })
parse_option (period t) s = some (record s { timer_period = u64 t })
parse_option unknown s = none

unfoldable pub l2fwd_parse_args : List Opt → Settings → Option Settings
l2fwd_parse_args [] s = some s
l2fwd_parse_args (opt ∷ opts) s = parse_option opt s >>= λ s'. l2fwd_parse_args opts s'

-- The mode whose tables `main` sets up; `none` is the call of rte_exit for sashstore.
unfoldable pub init_mode : Settings → Option Mode
init_mode s =
    if s.maglev_enabled
    then some maglev_mode
    else if s.sashstore_enabled
    then none
    else if s.dramblast_enabled
    then some dramblast_mode
    else some none_mode
