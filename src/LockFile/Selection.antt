-- ===== src/LockFile/Selection.antt =====
-- The port pool of serial_handle.c with the lock files of pidfile_handle.c.
use serial_ip.Base.{ℕ, suc, Option, none, some, [], ◌∷◌, ◌≡◌, ◌≢◌, refl, true, false, ◌∙◌}
use serial_ip.Base.Integer.{ℤ}
use serial_ip.Base.Text.{Text}
use serial_ip.LockFile.{create_uucp_lockfile}
use serial_ip.LockFile.Files.{FileSystem, System}
use serial_ip.LockFile.Held.{IsHeld, create_uucp_lockfile-IsHeld}
use serial_ip.LockFile.Paths.{LockConfig, get_uucp_lock_device_file, uucp_tmp_filename}
use serial_ip.LockFile.Protocol.{IsReady, create_uucp_lockfile-free}
use serial_ip.Serial.Pool.{SerialInfo, Locker, select_serial_port}
use serial_ip.Serial.Pool.Selection.{select_serial_port-one}

-- The name that a creation returned, copied by strdup.
abbrev name_of : Option (Option Text × FileSystem) → Option (Option Text)
name_of none = none
name_of (some (none, after)) = none
name_of (some (some name, after)) = some (some name)

named :
    (r : Option Text × FileSystem) {name : Text}
    → r.0 ≡ some name
    → name_of (some r) ≡ some (some name)
named (found, after) e = rw e refl

-- The first lock that the selection of a port asks for.
unfoldable pub locker :
    System → ℤ → (FileSystem → FileSystem) → LockConfig → ℕ → FileSystem → Locker
locker os unset others conf pid fs nbusy device =
    name_of (create_uucp_lockfile os unset others conf device pid fs)

module _ (os : System) (unset : ℤ) (others : FileSystem → FileSystem) (conf : LockConfig) (pid : ℕ)
    (fs : FileSystem) (p : SerialInfo) {tmpname lockfile : Text} (fuel : ℕ) where
  -- When the only port of the pool has a lock file with the number of a live process, under a file
  -- that the temporary name does not name too, `select_serial_port` with the lock files of
  -- `create_uucp_lockfile` ends after two rounds at most without a port, and the port is marked
  -- busy.
  pub select_serial_port-IsHeld :
      {i q : ℕ}
      → uucp_tmp_filename os conf pid ≡ some tmpname
      → get_uucp_lock_device_file conf p.device ≡ some lockfile
      → tmpname ≢ lockfile
      → fs.file_at tmpname ≢ some i
      → IsHeld os fs lockfile i q
      → select_serial_port (locker os unset others conf pid fs) (suc (suc fuel)) (p ∷ [])
        ≡ some (none, record p { busy = true } ∷ [])
  unfolding locker
  select_serial_port-IsHeld etmp elock apart other h =
      let (after, e, held) =
        create_uucp_lockfile-IsHeld os unset others conf p.device pid fs etmp elock apart other h in
      select_serial_port-one (locker os unset others conf pid fs) p fuel ∙ rw e refl

  -- The only port is chosen with its lock file when none stands.
  pub select_serial_port-free :
      IsReady os conf p.device pid fs tmpname lockfile
      → fs.file_at lockfile ≡ none
      → select_serial_port (locker os unset others conf pid fs) (suc (suc fuel)) (p ∷ [])
        ≡ some (some 0, record p { lockfile = some lockfile; busy = false } ∷ [])
  unfolding locker
  select_serial_port-free ready free =
      let (r, e, takes) =
        create_uucp_lockfile-free os unset conf p.device pid fs ready others free in
      select_serial_port-one (locker os unset others conf pid fs) p fuel
      ∙ rw (e, named r takes.name) refl
