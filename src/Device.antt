-- ===== src/Device.antt =====
-- The serial device as a connection opens it, sets it up and leaves it: serial_init_termios of
-- configuration.c, serial_port_init and serial_cleanup of serial_handle.c. Of the termios settings
-- only what the code touches is there; the answers of the system are parameters.
pub mod Opening
pub mod Setup
pub mod Left
use serial_ip.Base.{
  ℕ, zero, suc, ◌+◌, ◌-◌, ◌%◌, ◌^◌, Bool, true, false, not, ◌&&◌, ◌||◌, Option, none, some, List,
  [], ◌∷◌, map, ◌==◌, if◌then◌else◌, ◌>>=◌,
}
use serial_ip.Base.Integer.{ℤ, pos, negsuc}
use serial_ip.Base.Text.{Text, codes, same_text}
use serial_ip.Configuration.{tolower}
use serial_ip.Configuration.Content.{Port}
use serial_ip.Program.{get_program_name}
use serial_ip.Serial.Pool.{SerialInfo, Locker, select_serial_port, release_serial_port}
use serial_ip.Serial.Speed.{Speed, b0, ulong2speed_t}
use serial_ip.Serial.Termios.{ControlFlags, uint2cs}
use serial_ip.Signals.{Debug, open_debug, close_debug, write_to_debuglog}

-- `c_iflag`
pub record InputFlags : Type 0 where
  pub inpck : Bool
  pub istrip : Bool
  pub brkint : Bool
  pub ixon : Bool
  pub ixoff : Bool
  pub ixany : Bool
  pub inlcr : Bool
  pub icrnl : Bool
  pub igncr : Bool

-- `c_lflag`
pub record LocalFlags : Type 0 where
  pub icanon : Bool
  pub echo : Bool
  pub echoe : Bool
  pub isig : Bool

-- `c_oflag`
pub record OutputFlags : Type 0 where
  pub opost : Bool
  pub onlcr : Bool
  pub ocrnl : Bool

pub record Termios : Type 0 where
  pub cflag : ControlFlags
  pub iflag : InputFlags
  pub lflag : LocalFlags
  pub oflag : OutputFlags
  pub ispeed : Speed

-- The device: its settings, the calls of tcgetattr and tcsetattr so far, O_NONBLOCK, whether it is
-- open, and how often it was flushed.
pub record Device : Type 0 where
  pub settings : Termios
  pub ioctls : ℕ
  pub nonblocking : Bool
  pub is_open : Bool
  pub flushed : ℕ

-- Whether a call succeeds; those of tcgetattr and tcsetattr by their number.
pub record Calls : Type 0 where
  pub opens : Bool
  pub gets : ℕ → Bool
  pub sets : ℕ → Bool
  pub takes_ospeed : Speed → Bool
  pub takes_ispeed : Speed → Bool
  pub gets_flags : Bool
  pub sets_flags : Bool
  pub flushes : Bool

unfoldable pub tcgetattr : Calls → Device → Option Termios × Device
tcgetattr os d =
    (if os.gets d.ioctls then some d.settings else none, record d { ioctls = d.ioctls + 1 })

-- A call that fails changes nothing.
unfoldable pub tcsetattr : Calls → Termios → Device → ℤ × Device
tcsetattr os t d =
    if os.sets d.ioctls
    then (pos 0, record d { settings = t; ioctls = d.ioctls + 1 })
    else (negsuc 0, record d { ioctls = d.ioctls + 1 })

unfoldable pub cfsetospeed : Calls → Speed → Termios → Option Termios
cfsetospeed os s t =
    if os.takes_ospeed s then some (record t { cflag = record t.cflag { ospeed = s } }) else none

unfoldable pub cfsetispeed : Calls → Speed → Termios → Option Termios
cfsetispeed os s t = if os.takes_ispeed s then some (record t { ispeed = s }) else none

-- An `int` that is kept as an `unsigned int`.
abbrev pub to_unsigned : ℤ → ℕ
to_unsigned (pos n) = n % 2 ^ 32
to_unsigned (negsuc n) = 2 ^ 32 - 1 - n % 2 ^ 32

-- The switch on the parity; PARITY_ODD is 1 and PARITY_EVEN 2.
abbrev pub parity_bits : ℕ → ControlFlags → ControlFlags
parity_bits parity f =
    if parity == 1
    then record f { parenb = true; parodd = true; cstopb = false }
    else if parity == 2
    then record f { parenb = true; parodd = false; cstopb = false }
    else record f { parenb = false; cstopb = false }

-- The control flags; HARDWARE_FLOW is 4.
unfoldable pub control_flags : Port → ControlFlags → ControlFlags
unfolding uint2cs
control_flags p f = record (parity_bits p.parity (record f { clocal = true; cread = true })) {
  csize = uint2cs (to_unsigned p.databits);
  crtscts = p.flowcontrol == 4;
}

-- The input flags; SOFTWARE_FLOW is 8.
abbrev pub input_flags : Port → Bool → InputFlags
input_flags p parenb = record {
  inpck = parenb;
  istrip = parenb;
  brkint = true;
  ixon = p.flowcontrol == 8;
  ixoff = p.flowcontrol == 8;
  ixany = p.flowcontrol == 8;
  inlcr = false;
  icrnl = false;
  igncr = false;
}

-- The settings of the port, the speed being set.
unfoldable pub new_setting : Port → Termios → Termios
unfolding control_flags
new_setting p t =
    let f = control_flags p t.cflag in
    record t {
      cflag = f;
      iflag = input_flags p f.parenb;
      lflag = record { icanon = false; echo = false; echoe = false; isig = false };
      oflag = record { opost = false; onlcr = false; ocrnl = false };
    }

-- behind the `tcsetattr` of the new settings
unfoldable pub activated : Calls → Termios → ℤ × Device → ℤ × Device
unfolding tcsetattr
activated os old (pos zero, d) = (pos 0, d)
activated os old (ret, d) = (ret, (tcsetattr os old d).1)

abbrev pub with_speed : Calls → Port → Termios → Option Termios
with_speed os p t =
    cfsetospeed os (ulong2speed_t p.speed) t >>= cfsetispeed os (ulong2speed_t p.speed)

-- behind the setting of the speed
unfoldable pub activate : Calls → Port → Termios → Device → Option Termios → ℤ × Device
unfolding tcsetattr activated new_setting
activate os p old d none = (negsuc 0, d)
activate os p old d (some t) = activated os old (tcsetattr os (new_setting p t) d)

-- behind the second `tcgetattr`
unfoldable pub configure : Calls → Port → Termios → Option Termios × Device → ℤ × Device
unfolding activate cfsetospeed cfsetispeed
configure os p old (none, d) = (negsuc 0, d)
configure os p old (some new, d) = activate os p old d (with_speed os p new)

-- behind the first `tcgetattr`
unfoldable pub copy_again : Calls → Port → Option Termios × Device → ℤ × Device
unfolding configure tcgetattr
copy_again os p (none, d) = (negsuc 0, d)
copy_again os p (some old, d) = configure os p old (tcgetattr os d)

-- The two settings that the code takes as arguments are copies: what it writes to them is lost.
unfoldable pub serial_init_termios : Calls → Port → Device → ℤ × Device
unfolding copy_again tcgetattr
serial_init_termios os p d = copy_again os p (tcgetattr os d)

-- The two calls of fcntl; an error is only logged.
abbrev pub set_mode : Calls → Bool → Device → Device
set_mode os nonblocking d =
    if os.gets_flags && os.sets_flags then record d { nonblocking = nonblocking } else d

abbrev pub is_set : ℤ → Bool
is_set (pos n) = not (n == 0)
is_set (negsuc n) = true

abbrev pub flush : Calls → ℤ → Device → Device
flush os wanted d = if is_set wanted && os.flushes then record d { flushed = d.flushed + 1 } else d
