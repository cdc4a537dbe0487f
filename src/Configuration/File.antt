-- ===== src/Configuration/File.antt =====
-- Reading the configuration file by configuration.c. A file is the list of the lines that fgets gives.
pub mod Sound
pub mod Accepted
use serial_ip.Base.{
  ℕ, zero, suc, ◌+◌, Bool, true, false, ◌||◌, ◌&&◌, Option, none, some, List, [], ◌∷◌, ◌++◌, map,
  leb, ◌==◌, if◌then◌else◌, ◌>>=◌, length,
}
use serial_ip.Base.Integer.{ℤ, pos, negsuc}
use serial_ip.Base.Switch.{switch}
use serial_ip.Base.Text.{Text, codes, same_text}
use serial_ip.Configuration.{
  TokenType, longvalue, boolean, string, value, ConfigEntry, string_to_lower, parse_entry, unknown,
}
use serial_ip.Configuration.Value.{Library, Stored, save_string, save_int, save_long}
use serial_ip.Serial.Pool.{no_path, max_sports}
use serial_ip.Serial.Speed.{valid_serial_speed}
use serial_ip.Configuration.Content.{
  Port, Config, Reading, Action, serial_device, set_device, keyword_table, hsearch,
}
use serial_ip.Configuration.Actions.{
  conf_string, conf_int, port_int, port_speed, port_description, port_device, port_word,
  parity_words, flow_words, is_databits, is_stopbits, any_int, ignored,
}

-- The `switch` over the token.
abbrev pub actions : Library → List (ℕ × Action)
actions lib =
    (0x00000040, conf_string lib (λ c. c.directory) (λ c v. record c { directory = v }))
    ∷ (0x00000080, conf_string lib (λ c. c.tmpdir) (λ c v. record c { tmpdir = v }))
    ∷ (0x00002000, conf_string lib (λ c. c.lockdir) (λ c v. record c { lockdir = v }))
    ∷ (0x00004000, conf_string lib (λ c. c.locktemplate) (λ c v. record c { locktemplate = v }))
    ∷ (0x00000010, conf_string lib (λ c. c.debuglog) (λ c v. record c { debuglog = v }))
    ∷ (0x00000020, conf_int lib (λ c v. record c { debuglevel = v }))
    ∷ (0x00000100, conf_string lib (λ c. c.pidfile) (λ c v. record c { pidfile = v }))
    ∷ (0x00000200, conf_int lib (λ c v. record c { timeout = v }))
    ∷ (0x00000800, conf_string lib (λ c. c.user) (λ c v. record c { user = v }))
    ∷ (0x00001000, conf_string lib (λ c. c.group) (λ c v. record c { group = v }))
    ∷ (0x00000400, conf_string lib (λ c. c.server_type) (λ c v. record c { server_type = v }))
    ∷ (0x00008000, port_device lib)
    ∷ (0x00800000, port_description lib)
    ∷ (0x00010000, port_speed lib)
    ∷ (0x00020000, port_int lib (λ p v. record p { databits = v }) is_databits)
    ∷ (0x00040000, port_word (λ p n. record p { parity = n }) parity_words)
    ∷ (0x00080000, port_int lib (λ p v. record p { stopbits = v }) is_stopbits)
    ∷ (0x00100000, port_word (λ p n. record p { flowcontrol = n }) flow_words)
    ∷ (0x02000000, port_int lib (λ p v. record p { conn_flush = v }) any_int)
    ∷ (0x04000000, port_int lib (λ p v. record p { disc_flush = v }) any_int)
    ∷ (0x01000000, conf_int lib (λ c v. record c { reply_purge_data = v }))
    ∷ (0x00200000, conf_int lib (λ c v. record c { ms_pollinterval = v }))
    ∷ (0x00400000, conf_int lib (λ c v. record c { ls_pollinterval = v }))
    ∷ (0x08000000, conf_int lib (λ c v. record c { idletimer = v }))
    ∷ (0x10000000, conf_int lib (λ c v. record c { send_logout = v }))
    ∷ []

-- The action of a line; only the tokens of comments and the like come without a value.
unfoldable pub act : Library → ℕ → TokenType → Option Text → Reading → Option (ℕ × Reading)
unfolding ignored
act lib token type none s = some (0, s)
act lib token type (some t) s = switch token (actions lib) ignored type t s

-- The loop goes on with the next line unless there was an error.
unfoldable pub next_line :
    (Reading → ConfigEntry → Option (ℕ × Reading))
    → ConfigEntry
    → Option (ℕ × Reading)
    → Option (ℕ × Reading)
next_line loop entry none = none
next_line loop entry (some (zero, s)) = loop s entry
next_line loop entry (some (suc e, s)) = some (suc e, s)

unfoldable pub read_lines : Library → List Text → Reading → ConfigEntry → Option (ℕ × Reading)
unfolding act next_line parse_entry hsearch
read_lines lib [] s entry = some (0, s)
read_lines lib (line ∷ lines) s entry =
    let (token, found) = parse_entry (hsearch keyword_table) line entry in
    next_line (read_lines lib lines) found (act lib token found.type found.value s)

-- The defaults for ports; `def_description` is copied by strdup.
abbrev pub sabre_port : Library → Port
sabre_port lib =
    let text = codes "Sabre Lite Serial Interface" in
    record {
      device = none;
      description =
          if lib.allocates text
          then some (record { capacity = suc (length text); text = text })
          else none;
      speed = 9600;
      databits = pos 8;
      parity = 0;
      stopbits = pos 1;
      flowcontrol = 4;
      conn_flush = pos 0;
      disc_flush = pos 1;
    }

abbrev pub no_entry : ConfigEntry
no_entry = record { name = []; token = unknown; type = string; value = none }

abbrev pub start_reading : Library → Config → Reading
start_reading lib conf = record {
  conf = conf;
  sabre_defaults = sabre_port lib;
  earlier = [];
  last = none;
}

-- `none` for the lines: the file cannot be opened.
unfoldable pub read_configuration_file :
    Library → Option (List Text) → Config → Option (ℕ × Reading)
unfolding read_lines
read_configuration_file lib none conf = some (1, start_reading lib conf)
read_configuration_file lib (some lines) conf =
    read_lines lib lines (start_reading lib conf) no_entry
