-- ===== src/Serial/Line.antt =====
-- The open serial device: its settings, and the answers of tcgetattr(3) and tcsetattr(3), which are
-- outside the program. The setters read the settings, change them and write them back.
pub mod Replies
use serial_ip.Base.{ℕ, suc, ◌+◌, Bool, true, false, ◌≡◌, if◌then◌else◌}
use serial_ip.Base.Integer.{ℤ, pos, negsuc}
use serial_ip.Serial.Termios.{
  ControlFlags, Settings, current, unavailable, get_stopsize, get_parity, get_datasize,
  get_baudrate, stopsize_flags, parity_flags, datasize_flags, baudrate_flags,
}

-- `ioctls` counts the calls made, so that each may be answered in its own way.
pub record Line : Type 0 where
  pub flags : ControlFlags
  pub ioctls : ℕ

-- Whether the k-th call succeeds. A failed call returns -1, and a failed tcsetattr changes nothing.
pub record Driver : Type 0 where
  pub gets : ℕ → Bool
  pub sets : ℕ → Bool

unfoldable pub tcgetattr : Driver → Line → Settings × Line
tcgetattr d l = (
  if d.gets l.ioctls then current l.flags else unavailable (negsuc 0),
  record l { ioctls = l.ioctls + 1 },
)

unfoldable pub tcsetattr : Driver → ControlFlags → Line → ℤ × Line
tcsetattr d f l =
    if d.sets l.ioctls
    then (pos 0, record l { flags = f; ioctls = l.ioctls + 1 })
    else (negsuc 0, record l { ioctls = l.ioctls + 1 })

-- A getter of serial_handle.c: `get_stopsize`, `get_parity`, `get_datasize`, `get_baudrate`.
unfoldable pub ask_line : Driver → (Settings → ℕ) → Line → ℕ × Line
unfolding tcgetattr
ask_line d get l = let (s, l') = tcgetattr d l in (get s, l')

-- The frame that the four setters share.
unfoldable pub change_line : Driver → (ControlFlags → ControlFlags) → Line → ℤ × Line
unfolding tcgetattr tcsetattr
change_line d change l =
    let (s, l') = tcgetattr d l in
    elim s [ current f ↦ tcsetattr d (change f) l' | unavailable ret ↦ (ret, l') ]

unfoldable pub set_stopsize : Driver → ℕ → Line → ℤ × Line
unfolding change_line stopsize_flags
set_stopsize d value = change_line d (stopsize_flags value)

unfoldable pub set_parity : Driver → ℕ → Line → ℤ × Line
unfolding change_line parity_flags
set_parity d value = change_line d (parity_flags value)

unfoldable pub set_datasize : Driver → ℕ → Line → ℤ × Line
unfolding change_line datasize_flags
set_datasize d value = change_line d (datasize_flags value)

unfoldable pub set_baudrate : Driver → ℕ → Line → ℤ × Line
unfolding change_line baudrate_flags
set_baudrate d value = change_line d (baudrate_flags value)
