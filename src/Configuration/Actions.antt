-- ===== src/Configuration/Actions.antt =====
-- The cases of the switch in `read_configuration_file` of configuration.c.
use serial_ip.Base.{
  ℕ, suc, Bool, true, false, ◌||◌, ◌&&◌, Option, none, some, List, [], ◌∷◌, ◌++◌, leb, ◌==◌,
  if◌then◌else◌, ◌>>=◌, length,
}
use serial_ip.Base.Integer.{ℤ, pos, negsuc}
use serial_ip.Base.Text.{Text, codes, same_text}
use serial_ip.Configuration.{string_to_lower}
use serial_ip.Configuration.Value.{Library, Stored, save_string, save_int, save_long}
use serial_ip.Serial.Pool.{no_path, max_sports}
use serial_ip.Serial.Speed.{valid_serial_speed}
use serial_ip.Configuration.Content.{Port, Config, Reading, Action, serial_device, set_device}

-- `calloc`
abbrev pub empty_port : Port
empty_port = record {
  device = none;
  description = none;
  speed = 0;
  databits = pos 0;
  parity = 0;
  stopbits = pos 0;
  flowcontrol = 0;
  conn_flush = pos 0;
  disc_flush = pos 0;
}

module _ (lib : Library) where
  -- A string, or an `int`, of the configuration.
  unfoldable pub conf_string : (Config → Option Stored) → (Config → Option Stored → Config) → Action
  conf_string get set type t s =
      save_string lib type t (get s.conf) >>= λ (e, v). some (e, record s { conf = set s.conf v })

  unfoldable pub conf_int : (Config → ℤ → Config) → Action
  conf_int set type t s =
      save_int lib type t >>= λ (e, v). some (e, record s { conf = set s.conf v })

  -- An `int` of the port, accepted if `test` holds.
  unfoldable pub port_int : (Port → ℤ → Port) → (ℤ → Bool) → Action
  port_int set test type t s = save_int lib type t >>= λ (e, v).
      some ((if e == 0 then if test v then 0 else 1 else e), set_device s (set (serial_device s) v))

  unfoldable pub port_speed : Action
  port_speed type t s = save_long lib type t >>= λ (e, v). some (
    (if e == 0 then if valid_serial_speed v == 0 then 1 else 0 else e),
    set_device s (record (serial_device s) { speed = v }),
  )

  -- The description that stands is freed first.
  unfoldable pub port_description : Action
  port_description type t s = save_string lib type t none >>= λ (e, v).
      some (e, set_device s (record (serial_device s) { description = v }))

  -- `strdup` of a description; the code hands NULL to it too.
  abbrev pub copied : Option Stored → Option (Option Stored)
  copied none = none
  copied (some d) = some (
      if lib.allocates d.text
      then some (record { capacity = suc (length d.text); text = d.text })
      else none)

  -- A port with the defaults.
  abbrev pub with_defaults : Port → Option Text → Option Port
  with_defaults d device = copied d.description >>= λ description.
      some (record d { device = device; description = description })

  abbrev pub push : Reading → List Port
  push s = elim s.last [ none ↦ [] | some p ↦ s.earlier ++ p ∷ [] ]

  -- `calloc` fails: the last port takes the defaults; without one, the code writes before the array.
  abbrev pub overwrite : Reading → Option Port → Option (ℕ × Reading)
  overwrite s none = none
  overwrite s (some p) =
      with_defaults s.sabre_defaults p.device >>= λ q. some (0, record s { last = some q })

  -- `add_serial_port_info` and the defaults; `calloc` succeeds if there is memory for an empty string.
  unfoldable pub port_device : Action
  port_device type t s =
      if no_path (some t) || leb max_sports (length (push s))
      then some (1, s)
      else if lib.allocates []
      then if lib.allocates t
        then (with_defaults s.sabre_defaults (some t) >>= λ p.
            some (0, record s { earlier = push s; last = some p }))
        else some (1, record s { earlier = push s; last = some empty_port })
      else overwrite s s.last

-- `strcasecmp(t, word) == 0`
abbrev pub is_word : Text → Text → Bool
is_word word t = same_text (string_to_lower t) word

-- One of several words, each with a number.
unfoldable pub port_word : (Port → ℕ → Port) → List (Text × ℕ) → Action
port_word set [] type t s = some (1, s)
port_word set ((word, n) ∷ words) type t s =
    let rest = port_word set words type t s in
    if is_word word t then some (0, set_device s (set (serial_device s) n)) else rest

abbrev pub parity_words : List (Text × ℕ)
parity_words = (codes "none", 0) ∷ (codes "odd", 1) ∷ (codes "even", 2) ∷ []

abbrev pub flow_words : List (Text × ℕ)
flow_words =
    (codes "hardware", 4)
    ∷ (codes "rts/cts", 4)
    ∷ (codes "software", 8)
    ∷ (codes "xon/xoff", 8)
    ∷ (codes "none", 16)
    ∷ []

abbrev pub is_databits : ℤ → Bool
is_databits (pos n) = leb 5 n && leb n 8
is_databits (negsuc n) = false

abbrev pub is_stopbits : ℤ → Bool
is_stopbits (pos n) = leb 1 n && leb n 2
is_stopbits (negsuc n) = false

abbrev pub any_int : ℤ → Bool
any_int v = true

-- Comments, blank lines, invalid values and unknown keywords.
unfoldable pub ignored : Action
ignored type t s = some (0, s)
