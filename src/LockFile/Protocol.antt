-- ===== src/LockFile/Protocol.antt =====
-- Creating and removing the lock file of a device, from names to names.
use serial_ip.Base.{ℕ, ◌<◌, Option, none, some, true, ◌≡◌, ◌≢◌, refl, inl, inr, Bool-cases}
use serial_ip.Base.Integer.{ℤ, pos}
use serial_ip.Base.Text.{Text, same_text, same_text_refl, eq_of_same_text}
use serial_ip.LockFile.{create_uucp_lockfile, unlock_uucp_lockfile}
use serial_ip.LockFile.Files.{FileSystem, System, unlink, rename}
use serial_ip.LockFile.Paths.{LockConfig, get_uucp_lock_device_file, uucp_tmp_filename}
use serial_ip.LockFile.Taken.{Allows, Takes, IsStale, after_write-free, after_write-stale}

-- A live process that may create and remove files in the lock directory, and whose temporary name is
-- not in use.
pub record IsReady (os : System) (conf : LockConfig) (device : Option Text) (pid : ℕ)
    (fs : FileSystem) (tmpname lockfile : Text) : Type 0 where
  pub tmp_is : uucp_tmp_filename os conf pid ≡ some tmpname
  pub lock_is : get_uucp_lock_device_file conf device ≡ some lockfile
  pub apart : tmpname ≢ lockfile
  pub allows : Allows os tmpname lockfile
  pub positive : 0 < pid
  pub small : pid < 2147483648
  pub alive : os.is_alive pid ≡ true
  pub unused : fs.file_at tmpname ≡ none

module _ (os : System) (unset : ℤ) (conf : LockConfig) (device : Option Text) (pid : ℕ)
    (fs : FileSystem) {tmpname lockfile : Text}
    (ready : IsReady os conf device pid fs tmpname lockfile) where
  open ready use {tmp_is, lock_is, apart, allows, positive, small, alive, unused}

  -- When no lock file stands the process gets the lock.
  pub create_uucp_lockfile-free :
      (others : FileSystem → FileSystem)
      → fs.file_at lockfile ≡ none
      → (r : Option Text × FileSystem) × (create_uucp_lockfile os unset others conf device pid fs
          ≡ some r)
        × Takes fs lockfile pid r
  unfolding create_uucp_lockfile
  create_uucp_lockfile-free others l = (
    _,
    rw (tmp_is, lock_is) refl,
    after_write-free os apart allows pid positive small alive unset others fs unused l,
  )

  -- When the lock file names a dead process, a live process for which the system refuses nothing,
  -- whose temporary name is not in use and whose wait nothing disturbs, gets the lock: the name of
  -- the lock file is returned, that path then names a new file with its process id, and every
  -- other path names what it did.
  pub create_uucp_lockfile-stale :
      {j q : ℕ}
      → IsStale os fs lockfile j q
      → (r : Option Text × FileSystem) × (create_uucp_lockfile os unset (λ x. x) conf device pid fs
          ≡ some r)
        × Takes fs lockfile pid r
  unfolding create_uucp_lockfile
  create_uucp_lockfile-stale {j} {q} h = (
    _,
    rw (tmp_is, lock_is) refl,
    after_write-stale os apart allows pid positive small alive unset fs j q unused h,
  )

  -- When no lock file stands, a live process for which the system refuses nothing and whose
  -- temporary name is not in use gets the lock, and `unlock_uucp_lockfile` then returns 0 and
  -- brings every path back to what it named before.
  pub unlock_uucp_lockfile-create_uucp_lockfile :
      (others : FileSystem → FileSystem)
      → fs.file_at lockfile ≡ none
      → (created after : FileSystem) × (create_uucp_lockfile os unset others conf device pid fs
          ≡ some (some lockfile, created))
        × (unlock_uucp_lockfile os conf device created ≡ some (pos 0, after))
        × ((path : Text) → after.file_at path ≡ fs.file_at path)
  unfolding unlock_uucp_lockfile unlink
  unlock_uucp_lockfile-create_uucp_lockfile others l =
      let (r, is_r, takes) = create_uucp_lockfile-free others l in
      let held : r.1.file_at lockfile ≡ some fs.next =
        rw (takes.named lockfile, same_text_refl lockfile) refl in
      (
        r.1,
        record r.1 { file_at = rename r.1.file_at lockfile none },
        rw (is_r, ← takes.name) refl,
        rw (lock_is, allows.drops_lock, held) refl,
        λ path. elim (Bool-cases (same_text lockfile path)) [
          | inl e ↦ rw (e, ← eq_of_same_text lockfile path e, l)
          | inr e ↦ rw (e, takes.named path, e)
        ],
      )
