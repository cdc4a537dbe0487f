-- ===== src/Device/Opening.antt =====
-- serial_port_init and serial_cleanup of serial_handle.c: a port of the pool and its device are taken
-- for a connection and given back.
use serial_ip.Base.{
  ℕ, zero, suc, not, ◌||◌, Bool, true, false, Option, none, some, List, [], ◌∷◌, map, if◌then◌else◌,
  ◌>>=◌,
}
use serial_ip.Base.Integer.{ℤ, pos}
use serial_ip.Base.Text.{Text, codes, same_text}
use serial_ip.Configuration.{tolower}
use serial_ip.Configuration.Content.{Port}
use serial_ip.Device.{
  Calls, Device, Termios, serial_init_termios, set_mode, flush, cfsetospeed, tcsetattr,
}
use serial_ip.Program.{get_program_name}
use serial_ip.Serial.Pool.{SerialInfo, Locker, select_serial_port, release_serial_port}
use serial_ip.Serial.Speed.{Speed, b0}
use serial_ip.Signals.{Debug, open_debug, close_debug, write_to_debuglog}

-- `release_serial_port` for the port at an index of the pool
abbrev pub release_at : (Text → ℤ) → ℕ → List SerialInfo → List SerialInfo
release_at unlock i [] = []
release_at unlock zero (p ∷ ports) = (release_serial_port unlock p).1 ∷ ports
release_at unlock (suc i) (p ∷ ports) = p ∷ release_at unlock i ports

-- The configured log, a format for snprintf(3), which is outside the program, and the log file, which
-- may be opened; a write to it may fail.
pub record Log : Type 0 where
  pub debuglog : Option Text
  pub debuglevel : ℕ
  pub snprintf : Text → Text → Text
  pub opens : Bool
  pub fails : Bool

abbrev pub is_empty : Text → Bool
is_empty [] = true
is_empty (c ∷ cs) = false

-- The name of the log file; none of the log goes to syslog.
unfoldable pub log_name : Log → Option Text → Option Text → Option Text
unfolding get_program_name
log_name log none device = some []
log_name log (some format) device =
    if is_empty format || same_text (map tolower format) (codes "syslog")
    then some []
    else device >>= λ path. get_program_name path >>= λ name. some (log.snprintf format name)

unfoldable pub start_log : Log → Text → Debug → Debug
unfolding open_debug write_to_debuglog
start_log log name g =
    (write_to_debuglog log.fails 0 (open_debug (not (is_empty name)) log.opens log.debuglevel g)).1

-- The pool, the device and the debugging log, with the index of the port that was taken.
abbrev pub State : Type 0
State = Option ℕ × List SerialInfo × Device × Debug

abbrev pub device_at : ℕ → List SerialInfo → Option Text
device_at i [] = none
device_at zero (p ∷ ports) = p.device
device_at (suc i) (p ∷ ports) = device_at i ports

-- The device being set up: blocking mode, the flush, and the log.
unfoldable pub make_ready : Calls → Log → Port → ℕ → List SerialInfo → Debug → Device → Option State
unfolding log_name start_log
make_ready os log p i ports g d =
    let ready = flush os p.conn_flush (set_mode os false d) in
    log_name log log.debuglog (device_at i ports) >>= λ name.
    some (some i, ports, ready, start_log log name g)

-- behind `serial_init_termios`
unfoldable pub after_termios :
    Calls → (Text → ℤ) → Log → Port → ℕ → List SerialInfo → Debug → ℤ × Device → Option State
unfolding make_ready
after_termios os unlock log p i ports g (pos zero, d) = make_ready os log p i ports g d
after_termios os unlock log p i ports g (ret, d) =
    some (none, release_at unlock i ports, record d { is_open = false }, g)

-- behind `select_serial_port`; `described` is the rest of the structure of a port.
unfoldable pub open_selected :
    Calls
    → (Text → ℤ)
    → Log
    → (ℕ → Port)
    → Device
    → Debug
    → Option ℕ × List SerialInfo
    → Option State
unfolding after_termios serial_init_termios
open_selected os unlock log described d g (none, ports) = some (none, ports, d, g)
open_selected os unlock log described d g (some i, ports) =
    if os.opens
    then after_termios os unlock log (described i) i ports g
        (serial_init_termios os (described i) (record d { nonblocking = true; is_open = true }))
    else some (none, release_at unlock i ports, d, g)

-- `none` is that the choice of a port still runs, or that the program name of a device is read
-- before its first byte.
unfoldable pub serial_port_init :
    Calls
    → (Text → ℤ)
    → Log
    → (ℕ → Port)
    → Locker
    → ℕ
    → List SerialInfo
    → Device
    → Debug
    → Option State
unfolding open_selected select_serial_port
serial_port_init os unlock log described lock fuel ports d g =
    select_serial_port lock fuel ports >>= open_selected os unlock log described d g

-- `cfsetospeed` whose result is not looked at
abbrev pub with_ospeed : Calls → Speed → Termios → Termios
with_ospeed os s t = elim (cfsetospeed os s t) [ none ↦ t | some u ↦ u ]

-- The speed is 0 for a second and is then what it was.
unfoldable pub hang_up : Calls → Termios → Device → Device
unfolding cfsetospeed tcsetattr
hang_up os new d =
    let zeroed = with_ospeed os b0 new in
    (tcsetattr os (with_ospeed os new.cflag.ospeed zeroed) (tcsetattr os zeroed d).1).1

-- The pool, the closed device and the log; `old` and `new` are the settings that the caller gives.
unfoldable pub serial_cleanup :
    Calls
    → (Text → ℤ)
    → Port
    → ℕ
    → Termios
    → Termios
    → List SerialInfo
    → Device
    → Debug
    → List SerialInfo × Device × Debug
unfolding hang_up tcsetattr close_debug
serial_cleanup os unlock p i old new ports d g =
    let flushed = flush os p.disc_flush (hang_up os new (set_mode os true d)) in
    (
      release_at unlock i ports,
      record (tcsetattr os old flushed).1 { is_open = false },
      close_debug g,
    )
