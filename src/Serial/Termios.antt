-- ===== src/Serial/Termios.antt =====
-- The line settings that the code touches, with `uint2cs`, and the getters and setters of
-- serial_handle.c. A flag word is a record of its bits. On Linux the character size and the speed
-- are fields of `c_cflag` as well, and CS5 and B0 are their zeros.
use serial_ip.Base.{ℕ, Bool, true, false, [], ◌∷◌, ◌==◌, if◌then◌else◌}
use serial_ip.Base.Integer.{ℤ}
use serial_ip.Base.Switch.{switch}
use serial_ip.Serial.Speed.{Speed, b0, speed_t2ulong, ulong2speed_t}

pub data CharSize : Type 0 where
  cs5 cs6 cs7 cs8 : CharSize

-- `c_cflag`
pub record ControlFlags : Type 0 where
  pub cstopb : Bool
  pub parenb : Bool
  pub parodd : Bool
  pub cread : Bool
  pub clocal : Bool
  pub crtscts : Bool
  pub csize : CharSize
  pub ospeed : Speed

unfoldable pub uint2cs : ℕ → CharSize
uint2cs data_bits = switch data_bits ((8, cs8) ∷ (7, cs7) ∷ (6, cs6) ∷ (5, cs5) ∷ []) cs8

-- `flags & CSTOPB`
abbrev pub only_cstopb : ControlFlags → ControlFlags
only_cstopb f = record {
  cstopb = f.cstopb;
  parenb = false;
  parodd = false;
  cread = false;
  clocal = false;
  crtscts = false;
  csize = cs5;
  ospeed = b0;
}

-- What tcgetattr(3) gives: the settings, or its error result.
pub data Settings : Type 0 where
  current : ControlFlags → Settings
  unavailable : ℤ → Settings

unfoldable pub get_stopsize : Settings → ℕ
get_stopsize (current f) = if f.cstopb then 2 else 1
get_stopsize (unavailable ret) = 1

unfoldable pub get_parity : Settings → ℕ
get_parity (current f) = if f.parenb then (if f.parodd then 2 else 3) else 1
get_parity (unavailable ret) = 1

-- the cases of `get_datasize` on `c_cflag & CSIZE`
abbrev datasize_of : CharSize → ℕ
datasize_of cs8 = 8
datasize_of cs7 = 7
datasize_of cs6 = 6
datasize_of cs5 = 5

unfoldable pub get_datasize : Settings → ℕ
get_datasize (current f) = datasize_of f.csize
get_datasize (unavailable ret) = 8

unfoldable pub get_baudrate : Settings → ℕ
unfolding speed_t2ulong
get_baudrate (current f) = speed_t2ulong f.ospeed
get_baudrate (unavailable ret) = 9600

-- What the setters write into the settings that they read. CPC_STOPSIZE_2BITS is 2,
-- CPC_STOPSIZE_15BITS is 3.
unfoldable pub stopsize_flags : ℕ → ControlFlags → ControlFlags
stopsize_flags value f =
    if value == 2 then only_cstopb f else if value == 3 then f else record f { cstopb = false }

-- CPC_PARITY_ODD is 2, CPC_PARITY_EVEN 3, CPC_PARITY_MARK 4, CPC_PARITY_SPACE 5.
unfoldable pub parity_flags : ℕ → ControlFlags → ControlFlags
parity_flags value f =
    if value == 2
    then record f { parenb = true; parodd = true; cstopb = false }
    else if value == 3
    then record f { parenb = true; parodd = false; cstopb = false }
    else if value == 4
    then f
    else if value == 5
    then f
    else record f { parenb = false; cstopb = false }

unfoldable pub datasize_flags : ℕ → ControlFlags → ControlFlags
datasize_flags value f = record f {
  csize = switch value ((8, cs8) ∷ (7, cs7) ∷ (6, cs6) ∷ (5, cs5) ∷ []) cs8;
}

unfoldable pub baudrate_flags : ℕ → ControlFlags → ControlFlags
unfolding ulong2speed_t
baudrate_flags value f = record f { ospeed = ulong2speed_t value }
