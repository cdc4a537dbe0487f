-- ===== src/Examples/Locks.antt =====
-- Lock files and the processes that want them.
use serial_ip.Base.{
  ℕ, ◌+◌, ◌∷◌, [], true, false, Option, none, some, ◌≡◌, ◌≢◌, refl, arith, ◌==◌, ◌||◌,
  if◌then◌else◌,
}
use serial_ip.Base.Integer.{pos}
use serial_ip.Base.Text.{Text, codes, same_text}
use serial_ip.LockFile.{create_uucp_lockfile, unlock_uucp_lockfile}
use serial_ip.LockFile.Distinct.{get_uucp_lock_device_file-injective, has_name}
use serial_ip.LockFile.Files.{FileSystem, System, pid_bytes}
use serial_ip.LockFile.Held.{IsHeld, create_uucp_lockfile-IsHeld}
use serial_ip.LockFile.Paths.{
  LockConfig, get_uucp_lock_device_file, uucp_tmp_filename, get_uucp_template_path,
}
use serial_ip.LockFile.Protocol.{
  IsReady, create_uucp_lockfile-stale, unlock_uucp_lockfile-create_uucp_lockfile,
}
use serial_ip.LockFile.Selection.{locker, select_serial_port-IsHeld}
use serial_ip.LockFile.Taken.{Takes}
use serial_ip.Telnet.Scan.{Absent}
use serial_ip.Serial.Pool.{SerialInfo, select_serial_port}

-- A system that refuses nothing, on which the processes 1, 2, 7 and 8 live.
abbrev pub calm : System
calm = record {
  denies_open = λ t. false;
  denies_fstat = λ t. false;
  denies_link = λ k. false;
  denies_unlink = λ t. false;
  accepts = λ t. 4;
  delivers = λ t. 4;
  is_alive = λ p. p == 1 || p == 2 || p == 7 || p == 8;
  decimal = λ p. (48 + p) ∷ [];
}

abbrev defaults : LockConfig
defaults = record { lockdir = none; locktemplate = none }

abbrev device : Option Text
device = some (codes "/dev/ttymxc0")

abbrev tmpname : Text
tmpname = codes "/var/lock/LCK..tmp.7"

abbrev pub lockfile : Text
lockfile = codes "/var/lock/LCK..ttymxc0"

abbrev empty : FileSystem
empty = record { file_at = λ t. none; content = λ i. []; next = 0 }

-- The lock of process `p`.
abbrev locked_by : ℕ → FileSystem
locked_by p = record {
  file_at = λ t. if same_text lockfile t then some 0 else none;
  content = λ i. pid_bytes p;
  next = 1;
}

other : tmpname ≢ lockfile
other e = cc

tmp_is : uucp_tmp_filename calm defaults 7 ≡ some tmpname
unfolding uucp_tmp_filename
tmp_is = refl

lock_is : get_uucp_lock_device_file defaults device ≡ some lockfile
unfolding get_uucp_lock_device_file
lock_is = refl

abbrev asleep : FileSystem → FileSystem
asleep fs = fs

held : IsHeld calm (locked_by 8) lockfile 0 7
held = record { here = refl; known = omega arith; whole = refl; owner = refl; alive = refl }

create_uucp_lockfile-IsHeld_example :
    (after : FileSystem) × (create_uucp_lockfile calm (pos 0) asleep defaults device 7 (locked_by 8)
      ≡ some (none, after))
    × IsHeld calm after lockfile 0 7
create_uucp_lockfile-IsHeld_example =
    create_uucp_lockfile-IsHeld calm (pos 0) asleep defaults device 7 (locked_by 8) tmp_is lock_is
      other (λ e. cc) held

ready :
    (fs : FileSystem)
    → fs.file_at tmpname ≡ none
    → IsReady calm defaults device 7 fs tmpname lockfile
ready fs e = record {
  tmp_is = tmp_is;
  lock_is = lock_is;
  apart = other;
  allows = record {
    opens_tmp = refl;
    opens_lock = refl;
    states = refl;
    links = λ k. refl;
    drops_tmp = refl;
    drops_lock = refl;
    writes = omega arith;
    reads = omega arith;
  };
  positive = omega arith;
  small = omega arith;
  alive = refl;
  unused = e;
}

create_uucp_lockfile-stale_example :
    (r : Option Text × FileSystem) × (create_uucp_lockfile calm
        (pos 0)
        asleep
        defaults
        device
        7
        (locked_by 9)
      ≡ some r)
    × Takes (locked_by 9) lockfile 7 r
create_uucp_lockfile-stale_example =
    create_uucp_lockfile-stale calm (pos 0) defaults device 7 (locked_by 9)
      (ready (locked_by 9) refl) {j = 0} {q = 8}
      (record { here = refl; known = omega arith; whole = refl; owner = refl; dead = refl })

unlock_uucp_lockfile-create_uucp_lockfile_example :
    (created after : FileSystem) × (create_uucp_lockfile calm (pos 0) asleep defaults device 7 empty
      ≡ some (some lockfile, created))
    × (unlock_uucp_lockfile calm defaults device created ≡ some (pos 0, after))
    × ((path : Text) → after.file_at path ≡ none)
unlock_uucp_lockfile-create_uucp_lockfile_example =
    unlock_uucp_lockfile-create_uucp_lockfile calm (pos 0) defaults device 7 empty
      (ready empty refl) asleep refl

template_is : get_uucp_template_path defaults ≡ some (codes "/var/lock/LCK..%s")
unfolding get_uucp_template_path
template_is = refl

named : has_name false (codes "/var/lock/LCK..%s") ≡ true
unfolding has_name
named = refl

base_Absent : Absent 47 (codes "ttymxc0")
base_Absent = ground arith

get_uucp_lock_device_file-injective_example : codes "ttymxc0" ≡ codes "ttymxc0"
unfolding get_uucp_lock_device_file
get_uucp_lock_device_file-injective_example =
    get_uucp_lock_device_file-injective defaults (codes "/dev") (codes "ttymxc0") (codes "/tmp")
      (codes "ttymxc0") (codes "/var/lock/LCK..%s") lockfile base_Absent base_Absent template_is
      named lock_is refl

abbrev console : SerialInfo
console = record { device = device; lockfile = none; busy = false }

select_serial_port-IsHeld_example :
    select_serial_port (locker calm (pos 0) asleep defaults 7 (locked_by 8)) 2 (console ∷ [])
    ≡ some (none, record console { busy = true } ∷ [])
select_serial_port-IsHeld_example =
    select_serial_port-IsHeld calm (pos 0) asleep defaults 7 (locked_by 8) console 0 tmp_is lock_is
      other (λ e. cc) held
