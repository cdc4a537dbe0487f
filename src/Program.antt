-- ===== src/Program.antt =====
-- serial_ip.c: the options of the command line and the start of the program; with get_program_name of
-- utilities.c.
pub mod Started
use serial_ip.Base.{
  ℕ, zero, suc, ◌+◌, Bool, Option, none, some, List, [], ◌∷◌, ◌++◌, ◌==◌, if◌then◌else◌, ◌>>=◌,
  length,
}
use serial_ip.Base.Integer.{ℤ, pos}
use serial_ip.Base.Text.{Text, codes}
use serial_ip.Configuration.Content.{Config, Port, Reading}
use serial_ip.Configuration.File.{read_configuration_file}
use serial_ip.Configuration.Sane.{Host, sane_config}
use serial_ip.Configuration.Value.{Library}
use serial_ip.Connection.{Settings}
use serial_ip.LockFile.Paths.{or_default, behind_slash}
use serial_ip.Signals.{Fate, runs, ends}

-- What stands behind the last '/' of the name that the program was called by; with an empty name the
-- code reads the byte before it.
unfoldable pub get_program_name : Text → Option Text
unfolding behind_slash
get_program_name [] = none
get_program_name (c ∷ cs) = some (or_default (behind_slash (c ∷ cs)) (c ∷ cs))

-- The globals that the command line sets.
pub record Options : Type 0 where
  pub daemon : ℕ
  pub noquote : ℕ
  pub config_file : Option Text
  pub sabre_network_port : ℤ
  pub useconds : ℤ
  pub error_flag : ℕ

-- One result of getopt(3): the letter and `optarg`.
abbrev pub Letter : Type 0
Letter = ℕ × Text

unfoldable pub take_option : Library → Letter → Options → Options
take_option lib (letter, optarg) o =
    if letter == 100
    then record o { daemon = o.daemon + 1 }
    else if letter == 110
    then record o { noquote = o.noquote + 1 }
    else if letter == 99
    then record o { config_file = if lib.allocates optarg then some optarg else none }
    else if letter == 112
    then record o { sabre_network_port = lib.atoi optarg }
    else if letter == 119
    then record o { useconds = lib.atoi optarg }
    else record o { error_flag = o.error_flag + 1 }

-- The loop, over the results of getopt.
unfoldable pub take_options : Library → List Letter → Options → Options
take_options lib [] o = o
take_options lib (l ∷ letters) o = take_options lib letters (take_option lib l o)

-- The values before the command line is read; SABRE_NETWORK_PORT is 1194.
abbrev pub default_options : Options
default_options = record {
  daemon = 0;
  noquote = 0;
  config_file = none;
  sabre_network_port = pos 1194;
  useconds = pos 0;
  error_flag = 0;
}

unfoldable pub get_options_from_input : Library → List Letter → ℕ × Options
unfolding take_options take_option
get_options_from_input lib letters =
    let o = take_options lib letters default_options in (o.error_flag, o)

-- The configuration before the file is read.
abbrev pub default_config : Config
default_config = record {
  directory = none;
  tmpdir = none;
  debuglog = none;
  pidfile = none;
  user = none;
  group = none;
  server_type = none;
  lockdir = none;
  locktemplate = none;
  debuglevel = pos 0;
  timeout = pos 30;
  ms_pollinterval = pos 10;
  ls_pollinterval = pos 30;
  reply_purge_data = pos 0;
  idletimer = pos 0;
  send_logout = pos 0;
}

-- All ports that were read.
abbrev pub ports : Reading → List Port
ports s = elim s.last [ none ↦ s.earlier | some p ↦ s.earlier ++ p ∷ [] ]

abbrev pub if_sane : List Port → ℕ × Config → Fate (List Port × Config)
if_sane ps (zero, conf) = runs (ps, conf)
if_sane ps (suc e, conf) = ends 1

-- behind `read_configuration_file`
abbrev pub after_reading : Host → Library → ℕ × Reading → Fate (List Port × Config)
after_reading host lib (zero, s) =
    if_sane (ports s) (sane_config host lib (length (ports s)) s.conf)
after_reading host lib (suc e, s) = ends 1

-- The start, the table of keywords being set up: the ports and the configuration, or the end of the program.
unfoldable pub serial_ip_init :
    Host → Library → Option (List Text) → Option (Fate (List Port × Config))
serial_ip_init host lib file =
    read_configuration_file lib file default_config >>= λ r. some (after_reading host lib r)
