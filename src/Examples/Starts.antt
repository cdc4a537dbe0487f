-- ===== src/Examples/Starts.antt =====
-- The start of the program with a configuration file.
use serial_ip.Base.{◌+◌, ◌<◌, true, Option, some, List, [], ◌∷◌, ◌++◌, ◌≡◌, refl, length}
use serial_ip.Base.Integer.{pos}
use serial_ip.Base.Text.{Text, codes}
use serial_ip.Configuration.{
  remove_carriage_return_from_string, remove_feedline_from_string,
  retrieve_configuration_entry_name,
}
use serial_ip.Configuration.Actions.{conf_string, port_device}
use serial_ip.Configuration.Content.{Config, Port}
use serial_ip.Configuration.File.{read_configuration_file}
use serial_ip.Configuration.File.Sound.{ArePorts}
use serial_ip.Configuration.Sane.{Host, sane_config, with_defaults}
use serial_ip.Configuration.Sane.Defaults.{IsSane}
use serial_ip.Configuration.Value.{Library, Stored, save_string}
use serial_ip.Program.{serial_ip_init, default_config}
use serial_ip.Program.Started.{serial_ip_init-IsSane}
use serial_ip.Signals.{runs}

-- Numbers are not in use here.
abbrev library : Library
library = record {
  atoi = λ t. pos 0;
  atol = λ t. 0;
  allocates = λ t. true;
  copies_default = λ k. true;
}

abbrev host : Host
host = record { getpwnam = λ t. some 1; getgrnam = λ t. some 1; is_dir = λ t. true }

abbrev line : Text → Text
line t = t ++ 10 ∷ []

abbrev file : List Text
file =
    line (codes "user=daemon") ∷ line (codes "group=tty") ∷ line (codes "device=/dev/ttymxc0") ∷ []

abbrev stored : Text → Option Stored
stored t = some (record { capacity = length t + 1; text = t })

abbrev given : Config
given = record default_config { user = stored (codes "daemon"); group = stored (codes "tty") }

abbrev console : Port
console = record {
  device = some (codes "/dev/ttymxc0");
  description = stored (codes "Sabre Lite Serial Interface");
  speed = 9600;
  databits = pos 8;
  parity = 0;
  stopbits = pos 1;
  flowcontrol = 4;
  conn_flush = pos 0;
  disc_flush = pos 1;
}

starts :
    serial_ip_init host library (some file)
    ≡ some (runs (console ∷ [], with_defaults library given))
unfolding serial_ip_init read_configuration_file sane_config remove_carriage_return_from_string
    remove_feedline_from_string retrieve_configuration_entry_name conf_string save_string
    port_device
starts = refl

serial_ip_init-IsSane_example :
    ArePorts (console ∷ []) × (0 < 1) × IsSane host library (with_defaults library given)
serial_ip_init-IsSane_example =
    serial_ip_init-IsSane host library (some file) (console ∷ []) (with_defaults library given)
      starts
