-- ===== src/Examples/Ports.antt =====
-- The pool of serial ports.
use serial_ip.Base.{false, none, some, [], ◌∷◌, ◌≡◌, refl}
use serial_ip.Base.Text.{codes}
use serial_ip.Serial.Pool.{SerialInfo, Locker, select_serial_port}
use serial_ip.Serial.Pool.Selection.{select_serial_port-runs}

abbrev console : SerialInfo
console = record { device = some (codes "/dev/ttymxc0"); lockfile = none; busy = false }

abbrev second : SerialInfo
second = record { device = some (codes "/dev/ttymxc1"); lockfile = none; busy = false }

-- The first lock that is asked for is held by another process.
abbrev held : Locker
held nbusy device = none

select_serial_port-runs_example : select_serial_port held 1000 (console ∷ second ∷ []) ≡ none
select_serial_port-runs_example = select_serial_port-runs held console second [] refl 1000
