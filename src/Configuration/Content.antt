-- ===== src/Configuration/Content.antt =====
-- What the configuration file describes, and the table of keywords of serial_ip.h.
use serial_ip.Base.{ℕ, Option, none, some, List, [], ◌∷◌, if◌then◌else◌}
use serial_ip.Base.Integer.{ℤ}
use serial_ip.Base.Text.{Text, codes, same_text}
use serial_ip.Configuration.{TokenType, longvalue, boolean, string, value}
use serial_ip.Configuration.Value.{Stored}

-- `struct serial_info_t`, as far as the file describes it
pub record Port : Type 0 where
  pub device : Option Text
  pub description : Option Stored
  pub speed : ℕ
  pub databits : ℤ
  pub parity : ℕ
  pub stopbits : ℤ
  pub flowcontrol : ℕ
  pub conn_flush : ℤ
  pub disc_flush : ℤ

-- `struct config_t` without the ports
pub record Config : Type 0 where
  pub directory : Option Stored
  pub tmpdir : Option Stored
  pub debuglog : Option Stored
  pub pidfile : Option Stored
  pub user : Option Stored
  pub group : Option Stored
  pub server_type : Option Stored
  pub lockdir : Option Stored
  pub locktemplate : Option Stored
  pub debuglevel : ℤ
  pub timeout : ℤ
  pub ms_pollinterval : ℤ
  pub ls_pollinterval : ℤ
  pub reply_purge_data : ℤ
  pub idletimer : ℤ
  pub send_logout : ℤ

-- The configuration, the defaults for ports, the ports before the last one, and the last one, which
-- `serial_device` points to once there is one.
pub record Reading : Type 0 where
  pub conf : Config
  pub sabre_defaults : Port
  pub earlier : List Port
  pub last : Option Port

-- `keyword_table`, its names folded to lower case
abbrev pub keyword_table : List (Text × TokenType × ℕ)
keyword_table =
    (codes "description", string, 0x00800000)
    ∷ (codes "serial device", string, 0x00008000)
    ∷ (codes "speed", longvalue, 0x00010000)
    ∷ (codes "databits", value, 0x00020000)
    ∷ (codes "parity", string, 0x00040000)
    ∷ (codes "stopbits", value, 0x00080000)
    ∷ (codes "flow control", string, 0x00100000)
    ∷ (codes "flush on connect", boolean, 0x02000000)
    ∷ (codes "flush on disconnect", boolean, 0x04000000)
    ∷ (codes "directory", string, 0x00000040)
    ∷ (codes "tmp directory", string, 0x00000080)
    ∷ (codes "pid file", string, 0x00000100)
    ∷ (codes "server type", string, 0x00000400)
    ∷ (codes "timeout", value, 0x00000200)
    ∷ (codes "reply purge data", boolean, 0x01000000)
    ∷ (codes "user", string, 0x00000800)
    ∷ (codes "group", string, 0x00001000)
    ∷ (codes "modemstate poll interval", value, 0x00200000)
    ∷ (codes "linestate poll interval", value, 0x00400000)
    ∷ (codes "debug log", string, 0x00000010)
    ∷ (codes "debug level", value, 0x00000020)
    ∷ (codes "lock directory", string, 0x00002000)
    ∷ (codes "lock template", string, 0x00004000)
    ∷ (codes "idle timer", value, 0x08000000)
    ∷ (codes "send telnet logout", boolean, 0x10000000)
    ∷ (codes "username", string, 0x00000800)
    ∷ (codes "device", string, 0x00008000)
    ∷ (codes "port", string, 0x00008000)
    ∷ (codes "speed", longvalue, 0x00010000)
    ∷ (codes "baudrate", longvalue, 0x00010000)
    ∷ []

-- hsearch(3) in the table: ENTER keeps the first entry of a key.
unfoldable pub hsearch : List (Text × TokenType × ℕ) → Text → Option (TokenType × ℕ)
hsearch [] name = none
hsearch ((key, type, token) ∷ table) name =
    let rest = hsearch table name in if same_text key name then some (type, token) else rest

-- What a line does with its type and value: the error, and what has been read.
abbrev pub Action : Type 0
Action = TokenType → Text → Reading → Option (ℕ × Reading)

-- `serial_device`, and a change of it
abbrev pub serial_device : Reading → Port
serial_device s = elim s.last [ none ↦ s.sabre_defaults | some p ↦ p ]

abbrev pub set_device : Reading → Port → Reading
set_device s p = elim s.last [
  | none ↦ record s { sabre_defaults = p }
  | some old ↦ record s { last = some p }
]
