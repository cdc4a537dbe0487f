-- ===== src/LockFile/Held.antt =====
-- A lock file whose owner is alive is safe from another process that wants the lock.
use serial_ip.Base.{
  ℕ, suc, ◌<◌, Bool, true, false, Option, none, some, ◌≡◌, ◌≢◌, refl, arith, inl, inr, zero, ◌⊎◌,
  length,
}
use serial_ip.Base.Integer.{ℤ, pos, negsuc}
use serial_ip.Base.Text.{Text, same_text-other}
use serial_ip.LockFile.{
  write_pidfile, verify_device_lock_state, is_stale, settle, after_link, after_write,
  create_uucp_lockfile,
}
use serial_ip.LockFile.Files.{
  FileSystem, System, link, file_exists, refused, unlink, pid_size, signed, pid_value,
}
use serial_ip.LockFile.Paths.{LockConfig, get_uucp_lock_device_file, uucp_tmp_filename}

-- The path names file `i`, which holds the number of the live process `q + 1`.
pub record IsHeld (os : System) (fs : FileSystem) (path : Text) (i q : ℕ) : Type 0 where
  pub here : fs.file_at path ≡ some i
  pub known : i < fs.next
  pub whole : length (fs.content i) ≡ pid_size
  pub owner : signed (pid_value (fs.content i)) ≡ pos (suc q)
  pub alive : os.is_alive (suc q) ≡ true

module _ (os : System) {tmpname lockfile : Text} (apart : tmpname ≢ lockfile) {i q : ℕ} where
  unlink-IsHeld :
      (fs : FileSystem)
      → IsHeld os fs lockfile i q
      → IsHeld os (unlink os tmpname fs).1 lockfile i q
  unfolding unlink
  unlink-IsHeld fs h = ground (arith, same_text-other tmpname lockfile apart)

  write_pidfile-IsHeld :
      (truncate : Bool) (pid : ℕ) (fs : FileSystem)
      → fs.file_at tmpname ≢ some i
      → IsHeld os fs lockfile i q
      → IsHeld os (write_pidfile os tmpname truncate pid fs).1 lockfile i q
  unfolding write_pidfile unlink
  write_pidfile-IsHeld truncate pid fs other h =
      ground (arith, same_text-other tmpname lockfile apart)

  not_stale :
      (unset : ℤ) (fs : FileSystem)
      → IsHeld os fs lockfile i q
      → is_stale (verify_device_lock_state os unset lockfile fs).0 ≡ false
  unfolding verify_device_lock_state
  not_stale unset fs h = ground arith

  link-taken :
      (fs : FileSystem)
      → IsHeld os fs lockfile i q
      → (link os 0 tmpname lockfile fs ≡ refused) ⊎ (link os 0 tmpname lockfile fs ≡ file_exists)
  unfolding link
  link-taken fs h = ground arith

  after_link-IsHeld :
      (unset : ℤ) (others : FileSystem → FileSystem) (pid : ℕ) (fs : FileSystem)
      → IsHeld os fs lockfile i q
      → let (name, after) =
          after_link os unset others tmpname lockfile pid fs (link os 0 tmpname lockfile fs) in
        (name ≡ none) × IsHeld os after lockfile i q
  unfolding after_link settle
  after_link-IsHeld unset others pid fs h = elim (link-taken fs h) [
    | inl e ↦ rw e (refl, unlink-IsHeld fs h)
    | inr e ↦ rw (e, not_stale unset fs h) (refl, unlink-IsHeld fs h)
  ]

  after_write-IsHeld :
      (unset : ℤ) (others : FileSystem → FileSystem) (pid : ℕ) (fs : FileSystem)
      → fs.file_at tmpname ≢ some i
      → IsHeld os fs lockfile i q
      → let (name, after) =
          after_write os unset others tmpname lockfile pid
            (write_pidfile os tmpname false pid fs) in
        (name ≡ none) × IsHeld os after lockfile i q
  unfolding after_write
  after_write-IsHeld unset others pid fs other h =
      go (write_pidfile os tmpname false pid fs).0 (write_pidfile os tmpname false pid fs).1
        (write_pidfile-IsHeld false pid fs other h)
    where
      go :
          (ret : ℤ) (written : FileSystem)
          → IsHeld os written lockfile i q
          → let (name, after) = after_write os unset others tmpname lockfile pid (ret, written) in
            (name ≡ none) × IsHeld os after lockfile i q
      go (pos zero) written w = after_link-IsHeld unset others pid written w
      go (pos (suc n)) written w = (refl, w)
      go (negsuc n) written w = (refl, w)

nothing :
    (r : Option Text × FileSystem)
    → r.0 ≡ none
    → ◌≡◌ {A = Option (Option Text × FileSystem)} (some r) (some (none, r.1))
nothing (name, after) e = rw e

-- When the lock file of a device holds the number of a live process, under a file that the
-- temporary name does not name too, `create_uucp_lockfile` of another process returns NULL and the
-- lock file stays and still holds that number, whatever the system refuses.
pub create_uucp_lockfile-IsHeld :
    (os : System) (unset : ℤ) (others : FileSystem → FileSystem) (conf : LockConfig)
    (device : Option Text) (pid : ℕ) (fs : FileSystem) {tmpname lockfile : Text} {i q : ℕ}
    → uucp_tmp_filename os conf pid ≡ some tmpname
    → get_uucp_lock_device_file conf device ≡ some lockfile
    → tmpname ≢ lockfile
    → fs.file_at tmpname ≢ some i
    → IsHeld os fs lockfile i q
    → (after : FileSystem) × (create_uucp_lockfile os unset others conf device pid fs
        ≡ some (none, after))
      × IsHeld os after lockfile i q
unfolding create_uucp_lockfile
create_uucp_lockfile-IsHeld os unset others conf device pid fs etmp elock apart other h =
    let (name, held) = after_write-IsHeld os apart unset others pid fs other h in
    (_, rw (etmp, elock) (nothing _ name), held)
