-- ===== src/Tests/Command.antt =====
-- The command line.
use net_blast.Base.{◌≡◌, refl, List, [], ◌∷◌, some, true}
use net_blast.Options.{
  Opt, mode, capacity, port_mask, queues, dramblast, Settings, defaults, l2fwd_parse_args,
  init_mode,
}
use net_blast.Options.Accepted.{AreUsable, parse_args-AreUsable}

abbrev options : List Opt
options = mode dramblast ∷ port_mask 3 ∷ queues 4 ∷ capacity 1024 ∷ []

abbrev settings : Settings
settings = record defaults {
  dramblast_enabled = true;
  enabled_port_mask = 3;
  queues_per_port = 4;
  capacity_set = 1024;
}

parsed : l2fwd_parse_args options defaults ≡ some settings
unfolding l2fwd_parse_args net_blast.Options.parse_option net_blast.Options.set_mode
    net_blast.Capacity.parse_capacity
parsed = refl

parse_args-AreUsable_example : AreUsable settings
parse_args-AreUsable_example = parse_args-AreUsable options parsed
