-- ===== src/Device/Setup.antt =====
-- What serial_init_termios leaves on the device.
use serial_ip.Base.{
  ℕ, ◌+◌, ◌≤◌, true, false, Option, none, some, ◌≡◌, ◌≢◌, inl, inr, refl, arith, Bool-cases, ◌==◌,
  ltb,
}
use serial_ip.Base.Integer.{ℤ, pos}
use serial_ip.Configuration.Actions.{is_databits}
use serial_ip.Configuration.Content.{Port}
use serial_ip.Configuration.File.Sound.{IsPort}
use serial_ip.Device.{
  Calls, Device, Termios, serial_init_termios, copy_again, configure, activate, activated,
  tcgetattr, tcsetattr, cfsetospeed, cfsetispeed, new_setting, control_flags, to_unsigned,
  parity_bits,
}
use serial_ip.Serial.Speed.{Speed, ulong2speed_t, valid_serial_speed, valid_serial_speed_exact}
use serial_ip.Serial.Termios.{
  ControlFlags, current, get_baudrate, get_datasize, get_parity, uint2cs,
}

-- The system refuses nothing.
pub record Grants (os : Calls) : Type 0 where
  pub gets : (k : ℕ) → os.gets k ≡ true
  pub sets : (k : ℕ) → os.sets k ≡ true
  pub ospeed : (s : Speed) → os.takes_ospeed s ≡ true
  pub ispeed : (s : Speed) → os.takes_ispeed s ≡ true

-- The settings that a port asks for.
abbrev pub wanted : Port → Termios → Termios
wanted p t =
    let s = ulong2speed_t p.speed in
    new_setting p (record t { cflag = record t.cflag { ospeed = s }; ispeed = s })

-- When the system refuses nothing, `serial_init_termios` returns 0 and the device has the settings
-- wanted.
pub serial_init_termios-wanted :
    (os : Calls) (p : Port) (d : Device)
    → Grants os
    → serial_init_termios os p d
      ≡ (pos 0, record d { settings = wanted p d.settings; ioctls = d.ioctls + 1 + 1 + 1 })
unfolding serial_init_termios copy_again configure activate activated tcgetattr tcsetattr
    cfsetospeed cfsetispeed
serial_init_termios-wanted os p d h =
    rw
      (
        h.gets d.ioctls,
        h.gets (d.ioctls + 1),
        h.ospeed (ulong2speed_t p.speed),
        h.ispeed (ulong2speed_t p.speed),
        h.sets (d.ioctls + 1 + 1),
      )
      refl

activated-kept :
    (os : Calls) (t : Termios) (d : Device)
    → (activated os d.settings (tcsetattr os t d)).0 ≢ pos 0
    → (activated os d.settings (tcsetattr os t d)).1.settings ≡ d.settings
unfolding activated tcsetattr
activated-kept os t d h = elim (Bool-cases (os.sets d.ioctls)) [
  | inl e ↦ absurd (h (rw e refl))
  | inr e ↦
      rw e (elim (Bool-cases (os.sets (d.ioctls + 1))) [ inl f ↦ rw f refl | inr f ↦ rw f refl ])
]

activate-kept :
    (os : Calls) (p : Port) (d : Device) (set : Option Termios)
    → (activate os p d.settings d set).0 ≢ pos 0
    → (activate os p d.settings d set).1.settings ≡ d.settings
unfolding activate
activate-kept os p d none h = refl
activate-kept os p d (some t) h = activated-kept os (new_setting p t) d h

configure-kept :
    (os : Calls) (p : Port) (d : Device)
    → (configure os p d.settings (tcgetattr os d)).0 ≢ pos 0
    → (configure os p d.settings (tcgetattr os d)).1.settings ≡ d.settings
unfolding configure tcgetattr
configure-kept os p d = elim (Bool-cases (os.gets d.ioctls)) [
  | inl e ↦ rw e (activate-kept os p (record d { ioctls = d.ioctls + 1 }) _)
  | inr e ↦ rw e (λ h. refl)
]

-- When `serial_init_termios` does not return 0, the settings of the device are what they were.
pub serial_init_termios-kept :
    (os : Calls) (p : Port) (d : Device)
    → (serial_init_termios os p d).0 ≢ pos 0
    → (serial_init_termios os p d).1.settings ≡ d.settings
unfolding serial_init_termios copy_again tcgetattr
serial_init_termios-kept os p d = elim (Bool-cases (os.gets d.ioctls)) [
  | inl e ↦ rw e (configure-kept os p (record d { ioctls = d.ioctls + 1 }))
  | inr e ↦ rw e (λ h. refl)
]

-- What the configuration file accepts as a number of data bits is what the device has.
databits :
    (n : ℤ) (f : ControlFlags)
    → is_databits n ≡ true
    → pos (get_datasize (current (record f { csize = uint2cs (to_unsigned n) }))) ≡ n
unfolding get_datasize uint2cs
databits n f h = ground arith

parity : (n : ℕ) (f : ControlFlags) → n ≤ 2 → get_parity (current (parity_bits n f)) ≡ n + 1
unfolding get_parity
parity n f h = ground arith

parity_bits-ospeed : (n : ℕ) (f : ControlFlags) → (parity_bits n f).ospeed ≡ f.ospeed
parity_bits-ospeed n f = ground arith

parity_bits-cstopb : (n : ℕ) (f : ControlFlags) → (parity_bits n f).cstopb ≡ false
parity_bits-cstopb n f = ground arith

parity_bits-parenb : (n : ℕ) (f : ControlFlags) → n ≤ 2 → (parity_bits n f).parenb ≡ ltb 0 n
parity_bits-parenb n f h = ground arith

valid_is_one : (s : ℕ) → valid_serial_speed s ≢ 0 → valid_serial_speed s ≡ 1
unfolding valid_serial_speed
valid_is_one s h = ground arith

-- For a port with a speed, data bits and a parity that the configuration file accepts, and when
-- the system refuses nothing, `serial_init_termios` returns 0, the device then reports that speed,
-- those data bits and the Com Port Control number of that parity, it has one stop bit, hardware
-- and software flow control exactly if the port asks for them, checks the parity exactly if there
-- is one, and neither edits lines, echoes nor processes output.
pub serial_init_termios-IsPort :
    (os : Calls) (p : Port) (d : Device)
    → Grants os
    → IsPort p
    → let (ret, after) = serial_init_termios os p d in
      let t = after.settings in
      (ret ≡ pos 0)
      × (get_baudrate (current t.cflag) ≡ p.speed)
      × (pos (get_datasize (current t.cflag)) ≡ p.databits)
      × (get_parity (current t.cflag) ≡ p.parity + 1)
      × (t.cflag.cstopb ≡ false)
      × (t.cflag.crtscts ≡ (p.flowcontrol == 4))
      × (t.iflag.ixon ≡ (p.flowcontrol == 8))
      × (t.iflag.inpck ≡ ltb 0 p.parity)
      × (t.lflag.icanon ≡ false)
      × (t.lflag.echo ≡ false)
      × (t.oflag.opost ≡ false)
unfolding new_setting control_flags get_baudrate get_parity get_datasize
serial_init_termios-IsPort os p d h good =
    let s = ulong2speed_t p.speed in
    let f : ControlFlags = record d.settings.cflag { ospeed = s; clocal = true; cread = true } in
    rw (serial_init_termios-wanted os p d h) (
      refl,
      rw (parity_bits-ospeed p.parity f)
          (valid_serial_speed_exact p.speed (valid_is_one p.speed good.known_speed)),
      databits p.databits (parity_bits p.parity f) good.known_databits,
      parity p.parity f good.known_parity,
      parity_bits-cstopb p.parity f,
      refl,
      refl,
      parity_bits-parenb p.parity f good.known_parity,
      refl,
      refl,
      refl,
    )
