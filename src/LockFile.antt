-- ===== src/LockFile.antt =====
-- pidfile_handle.c: the lock file of a device, and the file with the daemon's process id.
pub mod Files
pub mod Held
pub mod Taken
pub mod Protocol
pub mod Race
pub mod Selection
pub mod Distinct
pub mod Exclusion
pub mod Paths
use serial_ip.Base.{
  ℕ, zero, suc, Bool, true, false, Option, none, some, ◌==◌, leb, min, if◌then◌else◌, ◌>>=◌, length,
}
use serial_ip.Base.Integer.{ℤ, pos, negsuc}
use serial_ip.Base.Text.{Text}
use serial_ip.LockFile.Files.{
  FileSystem, System, Linked, linked, file_exists, refused, link, unlink, open_at, write_start,
  pid_size, pid_bytes, signed, pid_value,
}
use serial_ip.LockFile.Paths.{LockConfig, get_uucp_lock_device_file, uucp_tmp_filename}

-- behind `open`
abbrev pub write_opened : System → Text → ℕ → ℕ × FileSystem → ℤ × FileSystem
write_opened os path pid (i, fs) =
    let n = min pid_size (os.accepts path) in
    let written = write_start i n (pid_bytes pid) fs in
    if n == pid_size then (pos 0, written) else (pos 1, (unlink os path written).1)

unfoldable pub write_pidfile : System → Text → Bool → ℕ → FileSystem → ℤ × FileSystem
write_pidfile os path truncate pid fs =
    if os.denies_open path
    then (negsuc 0, fs)
    else write_opened os path pid (open_at (fs.file_at path) truncate path fs)

-- The end of `verify_device_lock_state`, for the process id that it holds then.
abbrev pub owner_state : System → ℤ → ℤ
owner_state os (negsuc n) = negsuc 0
owner_state os (pos zero) = negsuc 0
owner_state os (pos (suc n)) = if os.is_alive (suc n) then pos 0 else pos 1

-- behind `open`
abbrev pub verify_opened : System → ℤ → Text → FileSystem → Option ℕ → ℤ × ℤ
verify_opened os unset path fs none = (negsuc 0, pos 0)
verify_opened os unset path fs (some i) =
    if os.denies_fstat path
    then (negsuc 0, pos 0)
    else if length (fs.content i) == pid_size
    then if leb pid_size (os.delivers path)
      then (owner_state os (signed (pid_value (fs.content i))), signed (pid_value (fs.content i)))
      else (negsuc 0, pos 0)
    else (owner_state os unset, unset)

-- What fstat and read give of the open file `i`: the process id to test, `unset` for a file of another
-- size, or an error.
abbrev pub read_owner : System → ℤ → Text → FileSystem → ℕ → Option ℤ
read_owner os unset path fs i =
    if os.denies_fstat path
    then none
    else if length (fs.content i) == pid_size
    then if leb pid_size (os.delivers path) then some (signed (pid_value (fs.content i))) else none
    else some unset

-- The state and `*ret_pid`. A file of another size leaves the process id as it is, `unset`.
unfoldable pub verify_device_lock_state : System → ℤ → Text → FileSystem → ℤ × ℤ
verify_device_lock_state os unset path fs =
    if os.denies_open path
    then (negsuc 0, pos 0)
    else verify_opened os unset path fs (fs.file_at path)

-- `ret == 0 && lockpid == pid`
abbrev pub is_own : ℤ × ℤ → ℕ → Bool
is_own (pos zero, pos owner) pid = owner == pid
is_own _ pid = false

-- `verify_status == 1`
abbrev pub is_stale : ℤ → Bool
is_stale (pos n) = n == 1
is_stale (negsuc n) = false

-- The last part of `create_uucp_lockfile`, for what the last `link` did.
unfoldable pub settle :
    System → ℤ → Text → Text → ℕ → FileSystem → Linked → Option Text × FileSystem
unfolding verify_device_lock_state
settle os unset tmpname lockfile pid before (linked fs) =
    let after = (unlink os tmpname fs).1 in
    (
      if is_own (verify_device_lock_state os unset lockfile after) pid then some lockfile else none,
      after,
    )
settle os unset tmpname lockfile pid before _ = (none, (unlink os tmpname before).1)

-- A second `link`, once the stale lock is gone and `sleep` is over.
unfoldable pub link_again : System → ℤ → Text → Text → ℕ → FileSystem → Option Text × FileSystem
unfolding settle
link_again os unset tmpname lockfile pid slept =
    settle os unset tmpname lockfile pid slept (link os 1 tmpname lockfile slept)

-- behind the first `link`; `others` is what other processes do in the three seconds of `sleep`
unfoldable pub after_link :
    System
    → ℤ
    → (FileSystem → FileSystem)
    → Text
    → Text
    → ℕ
    → FileSystem
    → Linked
    → Option Text × FileSystem
unfolding verify_device_lock_state settle link_again
after_link os unset others tmpname lockfile pid fs file_exists =
    if is_stale (verify_device_lock_state os unset lockfile fs).0
    then link_again os unset tmpname lockfile pid (others (unlink os lockfile fs).1)
    else settle os unset tmpname lockfile pid fs file_exists
after_link os unset others tmpname lockfile pid fs answer =
    settle os unset tmpname lockfile pid fs answer

-- behind `write_pidfile`
unfoldable pub after_write :
    System
    → ℤ
    → (FileSystem → FileSystem)
    → Text
    → Text
    → ℕ
    → ℤ × FileSystem
    → Option Text × FileSystem
unfolding after_link
after_write os unset others tmpname lockfile pid (pos zero, fs) =
    after_link os unset others tmpname lockfile pid fs (link os 0 tmpname lockfile fs)
after_write os unset others tmpname lockfile pid (_, fs) = (none, fs)

unfoldable pub create_uucp_lockfile :
    System
    → ℤ
    → (FileSystem → FileSystem)
    → LockConfig
    → Option Text
    → ℕ
    → FileSystem
    → Option (Option Text × FileSystem)
unfolding after_write
create_uucp_lockfile os unset others conf device pid fs = do
  tmpname ← uucp_tmp_filename os conf pid
  lockfile ← get_uucp_lock_device_file conf device
  some (after_write os unset others tmpname lockfile pid (write_pidfile os tmpname false pid fs))

unfoldable pub unlock_uucp_lockfile :
    System → LockConfig → Option Text → FileSystem → Option (ℤ × FileSystem)
unlock_uucp_lockfile os conf device fs = do
  lockfile ← get_uucp_lock_device_file conf device
  some (let (done, after) = unlink os lockfile fs in (if done then pos 0 else negsuc 0, after))

-- The result of writing it is only logged.
unfoldable pub create_pidfile : System → Text → ℕ → FileSystem → FileSystem
create_pidfile os pidfile pid fs = (write_pidfile os pidfile true pid fs).1
