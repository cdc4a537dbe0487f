-- ===== src/Device/Left.antt =====
-- What a connection leaves of a port and its device.
use serial_ip.Base.{
  ℕ, suc, ◌+◌, ◌&&◌, true, false, Option, none, some, [], ◌∷◌, ◌≡◌, ◌≢◌, refl, Bool-cases, inl, inr,
  ◌⊎◌, zero,
}
use serial_ip.Base.Integer.{ℤ, pos, negsuc}
use serial_ip.Base.Text.{Text}
use serial_ip.Configuration.Content.{Port}
use serial_ip.Device.{Calls, Device, Termios, serial_init_termios, tcsetattr, flush, is_set}
use serial_ip.Device.Opening.{
  Log, serial_port_init, open_selected, after_termios, make_ready, log_name, start_log,
  serial_cleanup, hang_up, release_at,
}
use serial_ip.Device.Setup.{Grants, wanted, serial_init_termios-wanted, serial_init_termios-kept}
use serial_ip.Serial.Pool.{SerialInfo, Locker, release_serial_port}
use serial_ip.Serial.Pool.Selection.{select_serial_port-one}
use serial_ip.Signals.{Debug, close_debug}

flush_kept :
    (os : Calls) (wanted : ℤ) (d : Device)
    → ((flush os wanted d).settings ≡ d.settings)
      × ((flush os wanted d).nonblocking ≡ d.nonblocking)
flush_kept os wanted d = elim (Bool-cases (is_set wanted && os.flushes)) [
  | inl e ↦ rw e (refl, refl)
  | inr e ↦ rw e (refl, refl)
]

pub tcsetattr-settings :
    (os : Calls) (t : Termios) (d : Device) → Grants os → (tcsetattr os t d).1.settings ≡ t
unfolding tcsetattr
tcsetattr-settings os t d h = rw (h.sets d.ioctls) refl

module _ (os : Calls) (unlock : Text → ℤ) (log : Log) (described : ℕ → Port) (lock : Locker)
    (fuel : ℕ) (p : SerialInfo) {path : Text} {lockfile : Option Text} (d : Device) (g : Debug)
    (device : p.device ≡ some path) (takes : lock 0 p.device ≡ some lockfile) where
  abbrev chosen : SerialInfo
  chosen = record p { lockfile = lockfile; busy = false }

  abbrev given_back : SerialInfo
  given_back = record p { lockfile = none; busy = false }

  abbrev just_opened : Device
  just_opened = record d { nonblocking = true; is_open = true }

  release_at-chosen : release_at unlock 0 (chosen ∷ []) ≡ given_back ∷ []
  unfolding release_serial_port
  release_at-chosen = rw device refl

  after_termios-fails :
      (r : ℤ × Device)
      → r.0 ≢ pos 0
      → after_termios os unlock log (described 0) 0 (chosen ∷ []) g r
        ≡ some (none, release_at unlock 0 (chosen ∷ []), record r.1 { is_open = false }, g)
  unfolding after_termios
  after_termios-fails (pos zero, r) h = absurd (h refl)
  after_termios-fails (pos (suc n), r) h = refl
  after_termios-fails (negsuc n, r) h = refl

  -- When the lock of the only port is taken, but its device cannot be opened or
  -- `serial_init_termios` fails on it, `serial_port_init` returns no port, the lock file of the
  -- port is forgotten, the device is closed, and its settings are what they were.
  pub serial_port_init-fails :
      (os.opens ≡ false)
        ⊎ ((os.opens ≡ true) × ((serial_init_termios os (described 0) just_opened).0 ≢ pos 0))
      → d.is_open ≡ false
      → (d' : Device) × (serial_port_init os unlock log described lock (suc (suc fuel)) (p ∷ []) d g
          ≡ some (none, given_back ∷ [], d', g))
        × (d'.settings ≡ d.settings)
        × (d'.is_open ≡ false)
  unfolding serial_port_init open_selected
  serial_port_init-fails (inl e) k =
      (d, rw (select_serial_port-one lock p fuel, takes, e, release_at-chosen) refl, refl, k)
  serial_port_init-fails (inr (e, h)) k =
      let r = serial_init_termios os (described 0) just_opened in
      (
        record r.1 { is_open = false },
        rw
            (
              select_serial_port-one lock p fuel,
              takes,
              e,
              after_termios-fails r h,
              release_at-chosen,
            )
            refl,
        serial_init_termios-kept os (described 0) just_opened h,
        refl,
      )

  -- When the lock of the only port is taken and the system refuses nothing on the device and its
  -- log has a name, `serial_port_init` returns the port, with the settings that the port asks for
  -- and in blocking mode; `serial_cleanup` behind it forgets the lock file, closes the device and
  -- the log, and leaves on the device the old settings that its caller gives, whatever the
  -- settings were before.
  pub serial_cleanup-serial_port_init :
      {name : Text}
      → Grants os
      → os.opens ≡ true
      → os.gets_flags ≡ true
      → os.sets_flags ≡ true
      → log_name log log.debuglog (some path) ≡ some name
      → (old new : Termios)
      → (opened : Device) × (g' : Debug) × (serial_port_init os unlock log described lock
            (suc (suc fuel))
            (p ∷ [])
            d
            g
          ≡ some (some 0, chosen ∷ [], opened, g'))
        × (opened.settings ≡ wanted (described 0) d.settings)
        × (opened.nonblocking ≡ false)
        × (let (ports, left, g'') =
              serial_cleanup os unlock (described 0) 0 old new (chosen ∷ []) opened g' in
            (ports ≡ given_back ∷ [])
            × (left.settings ≡ old)
            × (left.is_open ≡ false)
            × (g''.debug_level ≡ 0))
  unfolding serial_port_init open_selected after_termios make_ready serial_cleanup hang_up tcsetattr
      close_debug
  serial_cleanup-serial_port_init {name} h opens gets sets named old new = (
    flush os (described 0).conn_flush (record just_opened {
      settings = wanted (described 0) d.settings;
      ioctls = d.ioctls + 1 + 1 + 1;
      nonblocking = false;
    }),
    start_log log name g,
    rw
        (
          select_serial_port-one lock p fuel,
          takes,
          opens,
          serial_init_termios-wanted os (described 0) just_opened h,
          gets,
          sets,
          device,
          named,
        )
        refl,
    (flush_kept os (described 0).conn_flush _).0,
    (flush_kept os (described 0).conn_flush _).1,
    (release_at-chosen, tcsetattr-settings os old _ h, refl, refl),
  )
