-- ===== src/Connection/Accepted.antt =====
-- parent_accept_socket_connection of network_controller.c: a port is opened, a client served on it,
-- and the port given back. The global `si`, which the session reads, is that of Outside.
use serial_ip.Base.{ℕ, suc, Bool, true, false, Option, none, some, List, [], ◌∷◌, ◌≡◌, refl, ◌>>=◌}
use serial_ip.Base.Integer.{ℤ}
use serial_ip.Base.Text.{Text}
use serial_ip.Configuration.Content.{Port}
use serial_ip.Connection.{Connection, Settings, Round, Progress, waiting, finished, exited, faulted}
use serial_ip.Connection.Start.{serial_ip_communication_process}
use serial_ip.Device.{Calls, Device, Termios}
use serial_ip.Device.Left.{serial_cleanup-serial_port_init, tcsetattr-settings}
use serial_ip.Device.Setup.{Grants}
use serial_ip.Device.Opening.{Log, State, serial_port_init, serial_cleanup, log_name}
use serial_ip.Serial.Line.{Line}
use serial_ip.Serial.Pool.{SerialInfo, Locker, release_serial_port}
use serial_ip.Server.{SocketCalls, network_init}
use serial_ip.Signals.{close_debug, Debug, Fate, runs, ends, Globals}
use serial_ip.Telnet.Session.{Session, Outside}

-- What the two parts of a session see of the device.
abbrev pub line_of : Device → Line
line_of d = record { flags = d.settings.cflag; ioctls = d.ioctls }

abbrev pub with_line : Device → Line → Device
with_line d l = record d { settings = record d.settings { cflag = l.flags }; ioctls = l.ioctls }

-- The result, whether the socket has the mode asked for, the pool, the device and the log.
abbrev pub Left : Type 0
Left = ℕ × Bool × (List SerialInfo × Device × Debug)

-- The arguments that stay the same: the answers on the device and on the socket, `described` and
-- the two settings, which nothing sets.
pub record Surroundings : Type 0 where
  pub calls : Calls
  pub unlock : Text → ℤ
  pub described : ℕ → Port
  pub sockets : SocketCalls
  pub old_setting : Termios
  pub new_setting : Termios

-- `serial_cleanup` and the result 0
abbrev pub cleaned : Surroundings → ℕ → List SerialInfo → Device → Debug → Left
cleaned e i ports d g = (
  0,
  (network_init e.sockets).1,
  serial_cleanup e.calls e.unlock (e.described i) i e.old_setting e.new_setting ports d g,
)

-- behind `serial_ip_communication_process`, whose result is not looked at; `none` is that it still
-- runs, or that memory outside a block is touched.
unfoldable pub after_session :
    Surroundings → ℕ → List SerialInfo → Device → Debug → Option Progress → Option (Fate Left)
unfolding serial_cleanup network_init
after_session e i ports d g none = some (runs (cleaned e i ports d g))
after_session e i ports d g (some (finished c)) =
    some (runs (cleaned e i ports (with_line d c.session.line) c.globals.debug))
after_session e i ports d g (some (exited status)) = some (ends status)
after_session e i ports d g (some (waiting c)) = none
after_session e i ports d g (some faulted) = none

-- What `serial_ip_communication_process` is given: the answers of the system, and the globals.
pub record Client : Type 0 where
  pub outside : Outside
  pub conf : Settings
  pub bufsiz : ℕ
  pub allocated : ℕ → ℕ → Bool
  pub rounds : List Round
  pub session : Session
  pub globals : Globals

-- `serial_ip_communication_process` on the open device
unfoldable pub communicate : Client → Device → Debug → Option Progress
unfolding serial_ip_communication_process
communicate w d g =
    serial_ip_communication_process w.outside w.conf w.bufsiz w.allocated w.rounds
      (record w.session { line = line_of d }) (record w.globals { debug = g })

-- behind `serial_port_init`
unfoldable pub after_init : Surroundings → Client → State → Option (Fate Left)
unfolding after_session communicate
after_init e w (none, ports, d, g) = some (runs (1, false, (ports, d, g)))
after_init e w (some i, ports, d, g) = after_session e i ports d g (communicate w d g)

unfoldable pub parent_accept_socket_connection :
    Surroundings → Log → Locker → ℕ → Client → List SerialInfo → Device → Debug → Option (Fate Left)
unfolding serial_port_init after_init
parent_accept_socket_connection e log lock fuel w ports d g =
    serial_port_init e.calls e.unlock log e.described lock fuel ports d g >>= after_init e w

module _ (e : Surroundings) (log : Log) (lock : Locker) (fuel : ℕ) (w : Client) (p : SerialInfo)
    {path : Text} {lockfile : Option Text} (d : Device) (g : Debug)
    (device : p.device ≡ some path) where
  -- A connection that ends on a port that was opened.
  cleaned_lem :
      (opened : Device) (g' : Debug) (c : Connection)
      → serial_port_init e.calls e.unlock log e.described lock (suc (suc fuel)) (p ∷ []) d g
        ≡ some (some 0, record p { lockfile = lockfile; busy = false } ∷ [], opened, g')
      → communicate w opened g' ≡ some (finished c)
      → Grants e.calls
      → (left : Device) × (h : Debug) × (parent_accept_socket_connection e log lock
            (suc (suc fuel))
            w
            (p ∷ [])
            d
            g
          ≡ some (
              runs (
                0,
                (network_init e.sockets).1,
                (record p { lockfile = none; busy = false } ∷ [], left, h),
              )))
        × (left.settings ≡ e.old_setting)
        × (left.is_open ≡ false)
        × (h.debug_level ≡ 0)
        × (h.has_file ≡ false)
  unfolding parent_accept_socket_connection after_init after_session serial_cleanup close_debug
      release_serial_port
  cleaned_lem opened g' c starts over grants =
      let (ports, left, h) =
        serial_cleanup e.calls e.unlock (e.described 0) 0 e.old_setting e.new_setting
          (record p { lockfile = lockfile; busy = false } ∷ []) (with_line opened c.session.line)
          c.globals.debug in
      (
        left,
        h,
        rw (starts, over, device) refl,
        tcsetattr-settings e.calls e.old_setting _ grants,
        refl,
        refl,
        refl,
      )

  -- When the lock of the only port is taken, the system refuses nothing on the device, its log has
  -- a name, and `serial_ip_communication_process` ends on any device,
  -- `parent_accept_socket_connection` returns 0 with the lock file of the port forgotten, the
  -- device closed, the log closed (its level 0 and no file), and on the device the settings that
  -- its own variable for the old ones holds, which nothing sets, whatever the settings were
  -- before.
  pub parent_accept_socket_connection-cleaned :
      {name : Text}
      → lock 0 p.device ≡ some lockfile
      → Grants e.calls
      → e.calls.opens ≡ true
      → e.calls.gets_flags ≡ true
      → e.calls.sets_flags ≡ true
      → log_name log log.debuglog (some path) ≡ some name
      → ((opened : Device) (h : Debug)
          → (c : Connection) × (communicate w opened h ≡ some (finished c)))
      → (left : Device) × (h : Debug) × (parent_accept_socket_connection e log lock
            (suc (suc fuel))
            w
            (p ∷ [])
            d
            g
          ≡ some (
              runs (
                0,
                (network_init e.sockets).1,
                (record p { lockfile = none; busy = false } ∷ [], left, h),
              )))
        × (left.settings ≡ e.old_setting)
        × (left.is_open ≡ false)
        × (h.debug_level ≡ 0)
        × (h.has_file ≡ false)
  parent_accept_socket_connection-cleaned takes grants opens gets sets named session =
      let (opened, g', starts, configured, blocking, left) =
        serial_cleanup-serial_port_init e.calls e.unlock log e.described lock fuel p d g device
          takes grants opens gets sets named e.old_setting e.new_setting in
      let (c, over) = session opened g' in cleaned_lem opened g' c starts over grants
