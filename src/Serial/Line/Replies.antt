-- ===== src/Serial/Line/Replies.antt =====
-- What the device reports after each setter.
use serial_ip.Base.{ℕ, ◌+◌, ◌≤◌, true, false, ◌≡◌, ◌⊎◌, arith, ◌==◌, if◌then◌else◌}
use serial_ip.Base.Integer.{pos, negsuc}
use serial_ip.Serial.Line.{
  Line, Driver, ask_line, change_line, set_stopsize, set_parity, set_datasize,
}
use serial_ip.Serial.Termios.{ControlFlags, cs5, get_stopsize, get_parity, get_datasize}
use serial_ip.Serial.Speed.{b0}

-- The driver answers each call on the device.
abbrev pub Answers : Driver → Type 0
Answers d = ((k : ℕ) → d.gets k ≡ true) × ((k : ℕ) → d.sets k ≡ true)

-- On a device that answers, setting a data size from 5 to 8 returns 0, the size reported
-- afterwards is that size, and no other control flag changes.
pub set_datasize-get_datasize :
    (d : Driver) (l : Line) (value : ℕ)
    → Answers d
    → 5 ≤ value
    → value ≤ 8
    → let (ret, l') = set_datasize d value l in
      (ret ≡ pos 0)
      × ((ask_line d get_datasize l').0 ≡ value)
      × (l'.flags ≡ record l.flags { csize = l'.flags.csize })
unfolding set_datasize ask_line get_datasize
set_datasize-get_datasize d l value a lo hi =
    ground (arith, a.0 l.ioctls, a.1 (l.ioctls + 1), a.0 (l.ioctls + 1 + 1))

-- On a device that answers, setting the parity returns 0, and the parity reported afterwards is
-- the one asked for if that is odd (2) or even (3), the one before if it is mark (4) or space (5),
-- and none (1) for any other value.
pub set_parity-get_parity :
    (d : Driver) (l : Line) (value : ℕ)
    → Answers d
    → let (ret, l') = set_parity d value l in
      (ret ≡ pos 0)
      × ((ask_line d get_parity l').0 ≡ (
          if value == 2
          then 2
          else if value == 3
          then 3
          else if value == 4
          then (ask_line d get_parity l).0
          else if value == 5
          then (ask_line d get_parity l).0
          else 1))
unfolding set_parity ask_line get_parity
set_parity-get_parity d l value a =
    ground (arith, a.0 l.ioctls, a.1 (l.ioctls + 1), a.0 (l.ioctls + 1 + 1))

-- On a device that answers, a request for two stop bits returns 0 and leaves the number of stop
-- bits reported as it was, while the receiver and parity are off, the size is 5 bits and the speed
-- is 0 afterwards.
pub set_stopsize-two :
    (d : Driver) (l : Line)
    → Answers d
    → let (ret, l') = set_stopsize d 2 l in
      (ret ≡ pos 0)
      × ((ask_line d get_stopsize l').0 ≡ (ask_line d get_stopsize l).0)
      × (l'.flags.cread ≡ false)
      × (l'.flags.parenb ≡ false)
      × (l'.flags.csize ≡ cs5)
      × (l'.flags.ospeed ≡ b0)
unfolding set_stopsize ask_line get_stopsize
set_stopsize-two d l a = ground (arith, a.0 l.ioctls, a.1 (l.ioctls + 1), a.0 (l.ioctls + 1 + 1))

-- A setter whose read or write of the settings fails returns -1 and leaves the flags of the device
-- as they were.
pub change_line_failed :
    (d : Driver) (change : ControlFlags → ControlFlags) (l : Line)
    → ((d.gets l.ioctls ≡ false) ⊎ (d.sets (l.ioctls + 1) ≡ false))
    → ((change_line d change l).0 ≡ negsuc 0) × ((change_line d change l).1.flags ≡ l.flags)
unfolding change_line
change_line_failed d change l h = ground arith
