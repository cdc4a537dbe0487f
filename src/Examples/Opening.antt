-- ===== src/Examples/Opening.antt =====
-- The console of the board, opened and left.
use serial_ip.Base.{true, false, none, some, [], ◌∷◌, ◌≡◌, arith, refl, inl, inr, ◌≢◌}
use serial_ip.Base.Integer.{ℤ, pos, negsuc}
use serial_ip.Base.Text.{Text, codes}
use serial_ip.Configuration.Content.{Port}
use serial_ip.Configuration.File.Sound.{IsPort}
use serial_ip.Device.{Calls, Device, Termios, serial_init_termios}
use serial_ip.Device.Left.{serial_port_init-fails}
use serial_ip.Device.Opening.{Log, log_name, serial_port_init}
use serial_ip.Device.Setup.{Grants, serial_init_termios-IsPort}
use serial_ip.Serial.Pool.{SerialInfo, Locker}
use serial_ip.Serial.Speed.{b9600, b115200, valid_serial_speed}
use serial_ip.Serial.Termios.{cs7, current, get_baudrate, get_datasize, get_parity}
use serial_ip.Signals.{Debug}

abbrev pub granting : Calls
granting = record {
  opens = true;
  gets = λ k. true;
  sets = λ k. true;
  takes_ospeed = λ s. true;
  takes_ispeed = λ s. true;
  gets_flags = true;
  sets_flags = true;
  flushes = true;
}

-- The new settings are refused, and so is the restoring of the old ones.
abbrev refusing : Calls
refusing = record granting { sets = λ k. false }

abbrev pub granting_Grants : Grants granting
granting_Grants = record {
  gets = λ k. refl;
  sets = λ k. refl;
  ospeed = λ s. refl;
  ispeed = λ s. refl;
}

abbrev pub even_port : Port
even_port = record {
  device = some (codes "/dev/ttymxc0");
  description = none;
  speed = 115200;
  databits = pos 7;
  parity = 2;
  stopbits = pos 1;
  flowcontrol = 4;
  conn_flush = pos 1;
  disc_flush = pos 1;
}

even_port-IsPort : IsPort even_port
unfolding valid_serial_speed
even_port-IsPort = record {
  known_speed = λ e. omega (arith, e);
  known_databits = refl;
  known_stopbits = refl;
  known_parity = omega arith;
  known_flow = inl refl;
}

-- The settings of a terminal.
abbrev cooked : Termios
cooked = record {
  cflag = record {
    cstopb = true;
    parenb = false;
    parodd = false;
    cread = true;
    clocal = false;
    crtscts = false;
    csize = cs7;
    ospeed = b9600;
  };
  iflag = record {
    inpck = false;
    istrip = false;
    brkint = false;
    ixon = true;
    ixoff = false;
    ixany = false;
    inlcr = false;
    icrnl = true;
    igncr = false;
  };
  lflag = record { icanon = true; echo = true; echoe = true; isig = true };
  oflag = record { opost = true; onlcr = true; ocrnl = false };
  ispeed = b9600;
}

abbrev pub terminal : Device
terminal = record {
  settings = cooked;
  ioctls = 0;
  nonblocking = false;
  is_open = false;
  flushed = 0;
}

abbrev pub path : Text
path = codes "/dev/ttymxc0"

abbrev pub console_info : SerialInfo
console_info = record { device = some path; lockfile = none; busy = false }

abbrev pub grants_lock : Locker
grants_lock nbusy device = some (some (codes "LCK..ttymxc0"))

abbrev pub to_syslog : Log
to_syslog = record {
  debuglog = none;
  debuglevel = 3;
  snprintf = λ format name. format;
  opens = true;
  fails = false;
}

abbrev pub quiet_log : Debug
quiet_log = record { debug_level = 0; has_file = false }

abbrev pub unlocks : Text → ℤ
unlocks name = pos 0

serial_init_termios-IsPort_example :
    let (ret, after) = serial_init_termios granting even_port terminal in
    let t = after.settings in
    (ret ≡ pos 0)
    × (get_baudrate (current t.cflag) ≡ 115200)
    × (pos (get_datasize (current t.cflag)) ≡ pos 7)
    × (get_parity (current t.cflag) ≡ 3)
    × (t.cflag.cstopb ≡ false)
    × (t.cflag.crtscts ≡ true)
    × (t.iflag.ixon ≡ false)
    × (t.iflag.inpck ≡ true)
    × (t.lflag.icanon ≡ false)
    × (t.lflag.echo ≡ false)
    × (t.oflag.opost ≡ false)
serial_init_termios-IsPort_example =
    serial_init_termios-IsPort granting even_port terminal granting_Grants even_port-IsPort

refused :
    (serial_init_termios refusing even_port
      (record terminal { nonblocking = true; is_open = true })).0
    ≡ negsuc 0
unfolding serial_init_termios
refused = refl

refused_not_0 : (r : ℤ) → r ≡ negsuc 0 → r ≢ pos 0
refused_not_0 r e h = cc

serial_port_init-fails_example :
    (d' : Device) × (serial_port_init refusing unlocks to_syslog
        (λ i. even_port)
        grants_lock
        2
        (console_info ∷ [])
        terminal
        quiet_log
      ≡ some (none, console_info ∷ [], d', quiet_log))
    × (d'.settings ≡ cooked)
    × (d'.is_open ≡ false)
serial_port_init-fails_example =
    serial_port_init-fails refusing unlocks to_syslog (λ i. even_port) grants_lock 0 console_info
      terminal quiet_log refl refl (inr (refl, refused_not_0 _ refused)) refl

pub syslog_name : log_name to_syslog none (some path) ≡ some []
unfolding log_name
syslog_name = refl

-- What the caller passes for the old settings is what stays.
abbrev pub garbage : Termios
garbage = record cooked { ispeed = b115200 }
