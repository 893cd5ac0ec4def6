-- ===== src/Pktgen/Command.antt =====
-- The options of the generator, as getopt returns them, with the numbers that atoi reads.
pub mod Accepted
use net_blast.Base.{
  ℕ, ◌+◌, ◌-◌, Bool, ◌||◌, not, List, [], ◌∷◌, ◌>>=◌, Option, none, some, if◌then◌else◌, ltb, ◌==◌,
  bit_and, u16, u32, ℤ, pos, negsuc,
}
use net_blast.Pktgen.{Globals}

pub data GenOption : Type 0 where
  range : ℤ → GenOption
  payload : ℤ → GenOption
  unknown : GenOption

-- what the globals hold before the options, with the given frequency of the timer
abbrev pub default_globals : ℕ → Globals
default_globals timer_hz = record { ip_mask = 0xff; payload_size = 0; timer_hz = timer_hz }

-- One option; `none` is the end of the process for a number that is refused. An option that getopt
-- does not know changes nothing.
unfoldable pub set_option : GenOption → Globals → Option Globals
set_option (GenOption.range (negsuc n)) g = none
set_option (GenOption.range (pos n)) g =
    if n == 0 || not (bit_and n (n - 1) == 0) then none else some (record g { ip_mask = n - 1 })
set_option (GenOption.payload (negsuc n)) g = none
set_option (GenOption.payload (pos n)) g =
    if ltb 1400 n then none else some (record g { payload_size = u16 n })
set_option GenOption.unknown g = some g

-- the loop over the options
unfoldable pub set_options : List GenOption → Globals → Option Globals
set_options [] g = some g
set_options (option ∷ options) g = set_option option g >>= λ g'. set_options options g'

-- `sizeof(struct custom_payload)`
abbrev pub min_payload : ℕ
min_payload = 4 + 8 + 8

-- the enforcement of the minimum
abbrev pub enforce_payload : Globals → Globals
enforce_payload g =
    if ltb g.payload_size min_payload then record g { payload_size = min_payload } else g

-- the globals with which the generator runs
unfoldable pub globals_of : ℕ → List GenOption → Option Globals
globals_of timer_hz options =
    set_options options (default_globals timer_hz) >>= λ g. some (enforce_payload g)
