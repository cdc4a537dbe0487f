-- ===== src/LockFile/Taken.antt =====
-- A free lock, and one that a dead process left, are taken; giving it up restores the directory.
use serial_ip.Base.{
  ℕ, suc, ◌≤◌, ◌<◌, true, false, Option, none, some, ◌≡◌, ◌≢◌, refl, sym, arith, ==_iff, Bool-cases,
  inl, inr, length, min,
}
use serial_ip.Base.Integer.{ℤ, pos}
use serial_ip.Base.Text.{Text, same_text, same_text-other, same_text_refl, eq_of_same_text}
use serial_ip.LockFile.{
  write_pidfile, verify_device_lock_state, is_own, is_stale, settle, link_again, after_link,
  after_write,
}
use serial_ip.LockFile.Files.{
  FileSystem, System, link, linked, unlink, open_at, write_start, rename, pid_size, pid_bytes,
  signed, pid_value,
}

-- A process id as it is written is the one that is read.
pub signed-pid_bytes : (pid : ℕ) → pid < 2147483648 → signed (pid_value (pid_bytes pid)) ≡ pos pid
signed-pid_bytes pid h = ground arith

-- The system refuses nothing that creating or removing the lock asks for.
pub record Allows (os : System) (tmpname lockfile : Text) : Type 0 where
  pub opens_tmp : os.denies_open tmpname ≡ false
  pub opens_lock : os.denies_open lockfile ≡ false
  pub states : os.denies_fstat lockfile ≡ false
  pub links : (attempt : ℕ) → os.denies_link attempt ≡ false
  pub drops_tmp : os.denies_unlink tmpname ≡ false
  pub drops_lock : os.denies_unlink lockfile ≡ false
  pub writes : 4 ≤ os.accepts tmpname
  pub reads : 4 ≤ os.delivers lockfile

-- What the directory says once the temporary name, that was not there, is gone again.
added :
    {tmpname lockfile : Text}
    → tmpname ≢ lockfile
    → (f : Text → Option ℕ) (n : ℕ) (path : Text) → f tmpname ≡ none
    → rename (rename (rename f tmpname (some n)) lockfile (some n)) tmpname none path
      ≡ rename f lockfile (some n) path
added {tmpname} {lockfile} apart f n path t = elim (Bool-cases (same_text tmpname path)) [
  | inl e ↦
      let same = eq_of_same_text tmpname path e in
      rw (e, ← same, same_text-other lockfile tmpname (λ x. apart (sym x)), t)
  | inr e ↦ rw e
]

replaced :
    {tmpname lockfile : Text}
    → tmpname ≢ lockfile
    → (f : Text → Option ℕ) (n : ℕ) (path : Text) → f tmpname ≡ none
    → rename
        (rename (rename (rename f tmpname (some n)) lockfile none) lockfile (some n))
        tmpname
        none
        path
      ≡ rename f lockfile (some n) path
replaced {tmpname} {lockfile} apart f n path t = elim (Bool-cases (same_text tmpname path)) [
  | inl e ↦
      let same = eq_of_same_text tmpname path e in
      rw (e, ← same, same_text-other lockfile tmpname (λ x. apart (sym x)), t)
  | inr e ↦ elim (Bool-cases (same_text lockfile path)) [ inl l ↦ rw (e, l) | inr l ↦ rw (e, l) ]
]

-- What is left when the lock is taken: the lock file is added, and holds the process id.
pub record Takes (before : FileSystem) (lockfile : Text) (pid : ℕ) (r : Option Text × FileSystem)
    : Type 0 where
  pub name : r.0 ≡ some lockfile
  pub named :
      (path : Text) → r.1.file_at path ≡ rename before.file_at lockfile (some before.next) path
  pub held : r.1.content before.next ≡ pid_bytes pid

-- The path names file `j`, which holds the number of the process `q + 1`, and that one is dead.
pub record IsStale (os : System) (fs : FileSystem) (path : Text) (j q : ℕ) : Type 0 where
  pub here : fs.file_at path ≡ some j
  pub known : j < fs.next
  pub whole : length (fs.content j) ≡ pid_size
  pub owner : signed (pid_value (fs.content j)) ≡ pos (suc q)
  pub dead : os.is_alive (suc q) ≡ false

module _ (os : System) {tmpname lockfile : Text} (apart : tmpname ≢ lockfile)
    (allows : Allows os tmpname lockfile) (pid : ℕ) (positive : 0 < pid) (small : pid < 2147483648)
    (alive : os.is_alive pid ≡ true) where
  -- The temporary file, written.
  abbrev written : FileSystem → FileSystem
  written fs = write_start fs.next pid_size (pid_bytes pid) (open_at none false tmpname fs).1

  write_pidfile-new :
      (fs : FileSystem)
      → fs.file_at tmpname ≡ none
      → write_pidfile os tmpname false pid fs ≡ (pos 0, written fs)
  unfolding write_pidfile
  write_pidfile-new fs e =
      let full : min pid_size (os.accepts tmpname) ≡ pid_size = omega (arith, allows.writes) in
      rw (allows.opens_tmp, e, full)

  verify-own :
      (unset : ℤ) (fs : FileSystem) (i : ℕ)
      → fs.file_at lockfile ≡ some i
      → fs.content i ≡ pid_bytes pid
      → is_own (verify_device_lock_state os unset lockfile fs) pid ≡ true
  unfolding verify_device_lock_state
  verify-own unset fs i e c =
      ground (arith, signed-pid_bytes pid small, allows.opens_lock, allows.states, allows.reads)

  link-free :
      (attempt : ℕ) (fs : FileSystem) (i : ℕ)
      → fs.file_at tmpname ≡ some i
      → fs.file_at lockfile ≡ none
      → link os attempt tmpname lockfile fs
        ≡ linked (record fs { file_at = rename fs.file_at lockfile (some i) })
  unfolding link
  link-free attempt fs i t l = rw (allows.links attempt, t, l)

  unlink-tmp :
      (fs : FileSystem) (i : ℕ)
      → fs.file_at tmpname ≡ some i
      → unlink os tmpname fs ≡ (true, record fs { file_at = rename fs.file_at tmpname none })
  unfolding unlink
  unlink-tmp fs i e = rw (allows.drops_tmp, e)

  -- The lock is free, and the temporary file stands.
  settle-link :
      (unset : ℤ) (attempt : ℕ) (fs : FileSystem) (i : ℕ)
      → fs.file_at tmpname ≡ some i
      → fs.file_at lockfile ≡ none
      → fs.content i ≡ pid_bytes pid
      → settle os unset tmpname lockfile pid fs (link os attempt tmpname lockfile fs) ≡ (
        some lockfile,
        record fs { file_at = rename (rename fs.file_at lockfile (some i)) tmpname none },
      )
  unfolding settle
  settle-link unset attempt fs i t l c = rw (
    link-free attempt fs i t l,
    unlink-tmp (record fs { file_at = rename fs.file_at lockfile (some i) }) i
        (rw (same_text-other lockfile tmpname (λ e. apart (sym e))) t),
    verify-own unset
        (record fs { file_at = rename (rename fs.file_at lockfile (some i)) tmpname none }) i
        (rw (same_text-other tmpname lockfile apart, same_text_refl lockfile) refl) c,
  )

  -- The two ways to that state, for the file system that the temporary file was written in.
  after_link-free :
      (unset : ℤ) (others : FileSystem → FileSystem) (fs : FileSystem) (i : ℕ)
      → fs.file_at tmpname ≡ some i
      → fs.file_at lockfile ≡ none
      → fs.content i ≡ pid_bytes pid
      → after_link os unset others tmpname lockfile pid fs (link os 0 tmpname lockfile fs) ≡ (
        some lockfile,
        record fs { file_at = rename (rename fs.file_at lockfile (some i)) tmpname none },
      )
  unfolding after_link
  after_link-free unset others fs i t l c =
      rw (link-free 0 fs i t l) (rw (link-free 0 fs i t l) at (settle-link unset 0 fs i t l c))

  after_link-stale :
      (unset : ℤ) (fs : FileSystem) (i j : ℕ)
      → fs.file_at tmpname ≡ some i
      → fs.file_at lockfile ≡ some j
      → fs.content i ≡ pid_bytes pid
      → is_stale (verify_device_lock_state os unset lockfile fs).0 ≡ true
      → after_link os unset (λ x. x) tmpname lockfile pid fs (link os 0 tmpname lockfile fs) ≡ (
        some lockfile,
        record fs {
          file_at =
              rename (rename (rename fs.file_at lockfile none) lockfile (some i)) tmpname none;
        },
      )
  unfolding after_link link link_again unlink
  after_link-stale unset fs i j t l c stale =
      rw (allows.links 0, t, l, stale, allows.drops_lock, l)
        (settle-link unset 1 (record fs { file_at = rename fs.file_at lockfile none }) i
          (rw (same_text-other lockfile tmpname (λ e. apart (sym e))) t)
          (rw (same_text_refl lockfile) refl) c)

  set_content-same : (fs : FileSystem) → (written fs).content fs.next ≡ pid_bytes pid
  set_content-same fs = rw ((==_iff fs.next fs.next).1 refl) refl

  pub after_write-free :
      (unset : ℤ) (others : FileSystem → FileSystem) (fs : FileSystem)
      → fs.file_at tmpname ≡ none
      → fs.file_at lockfile ≡ none
      → Takes fs lockfile pid
          (after_write os unset others tmpname lockfile pid (write_pidfile os tmpname false pid fs))
  unfolding after_write
  after_write-free unset others fs t l =
      rw
        (
          write_pidfile-new fs t,
          after_link-free unset others (written fs) fs.next (rw (same_text_refl tmpname) refl)
              (rw (same_text-other tmpname lockfile apart) l) (set_content-same fs),
        )
        (record {
          name = refl;
          named = λ path. added apart fs.file_at fs.next path t;
          held = set_content-same fs;
        })

  verify-IsStale :
      (unset : ℤ) (fs : FileSystem) (j q : ℕ)
      → IsStale os fs lockfile j q
      → is_stale (verify_device_lock_state os unset lockfile (written fs)).0 ≡ true
  unfolding verify_device_lock_state
  verify-IsStale unset fs j q h = ground (
    arith,
    same_text-other tmpname lockfile apart,
    allows.opens_lock,
    allows.states,
    allows.reads,
  )

  pub after_write-stale :
      (unset : ℤ) (fs : FileSystem) (j q : ℕ)
      → fs.file_at tmpname ≡ none
      → IsStale os fs lockfile j q
      → Takes fs lockfile pid (
          after_write os unset
            (λ x. x)
            tmpname
            lockfile
            pid
            (write_pidfile os tmpname false pid fs))
  unfolding after_write
  after_write-stale unset fs j q t h =
      rw
        (
          write_pidfile-new fs t,
          after_link-stale unset (written fs) fs.next j (rw (same_text_refl tmpname) refl)
              (rw (same_text-other tmpname lockfile apart) h.here) (set_content-same fs)
              (verify-IsStale unset fs j q h),
        )
        (record {
          name = refl;
          named = λ path. replaced apart fs.file_at fs.next path t;
          held = set_content-same fs;
        })
