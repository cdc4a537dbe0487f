-- ===== src/LockFile/Race.antt =====
-- Several processes in `create_uucp_lockfile` for one device at once, one call of the system at a time,
-- in any order, with processes that end. Only fstat and read are one step: nothing writes a file here.
use serial_ip.Base.{
  ℕ, ◌<◌, none, some, Bool, true, false, ◌≡◌, ◌≢◌, ◌⊎◌, ◌==◌, if◌then◌else◌, arith,
}
use serial_ip.Base.Integer.{ℤ, pos, negsuc}
use serial_ip.Base.Text.{Text}
use serial_ip.LockFile.{verify_device_lock_state, owner_state, read_owner, is_own, is_stale}
use serial_ip.LockFile.Files.{
  FileSystem, System, link, linked, file_exists, refused, unlink, pid_bytes,
}

-- Where a process stands: in `create_uucp_lockfile`, with its temporary file written, or behind it. The
-- lock is verified once when it is there (`false`) and once when it was linked (`true`).
pub data Stage : Type 0 where
  linking : Stage  -- before the first `link`
  opening : Bool → Stage  -- before the `open` of `verify_device_lock_state`
  reading : Bool → ℕ → Stage  -- this file is open: before `fstat` and `read`
  testing : Bool → ℤ → Stage  -- this process id was read: before `kill`
  removing : Stage  -- the owner is dead: before `unlink` of the lock
  sleeping : Stage  -- before the second `link`
  dropping : Stage  -- linked: before `unlink` of the temporary name
  leaving : Stage  -- not linked: before `unlink` of the temporary name
  holding : Stage  -- the name of the lock file was returned
  done : Stage  -- NULL was returned, or the lock was given up

pub record IsProcess (pid : ℕ) : Type 0 where
  pub positive : 0 < pid
  pub small : pid < 2147483648

pub record Race : Type 0 where
  pub fs : FileSystem
  pub stage : ℕ → Stage
  pub alive : ℕ → Bool

abbrev pub moved {ℓ} : {A : Type ℓ} → (ℕ → A) → ℕ → A → ℕ → A
moved f p s q = if p == q then s else f q

-- What process `p` does with the result of `verify_device_lock_state`.
abbrev pub verified : Bool → ℤ × ℤ → ℕ → Stage
verified false r p = if is_stale r.0 then removing else leaving
verified true r p = if is_own r p then holding else done

-- The result for an error.
abbrev pub unverified : ℤ × ℤ
unverified = (negsuc 0, pos 0)

-- What `kill` and the end of `verify_device_lock_state` make of a process id.
abbrev pub tested : System → (ℕ → Bool) → ℤ → ℤ × ℤ
tested os alive pid = (owner_state (record os { is_alive = alive }) pid, pid)

-- These steps, taken one after the other, are `verify_device_lock_state`.
abbrev pub stepwise : System → ℤ → Text → FileSystem → ℤ × ℤ
stepwise os unset lockfile fs =
    if os.denies_open lockfile then unverified else elim (fs.file_at lockfile) [
      | none ↦ unverified
      | some i ↦ elim (read_owner os unset lockfile fs i) [
        | none ↦ unverified
        | some pid ↦ tested os os.is_alive pid
      ]
    ]

pub verify_device_lock_state-stepwise :
    (os : System) (unset : ℤ) (lockfile : Text) (fs : FileSystem)
    → verify_device_lock_state os unset lockfile fs ≡ stepwise os unset lockfile fs
unfolding verify_device_lock_state
verify_device_lock_state-stepwise os unset lockfile fs = ground arith

module _ (os : System) (unset : ℤ) (lockfile : Text) (tmpname : ℕ → Text) where
  -- One call of process `p`, `alive` telling which processes there are.
  pub data Move (p : ℕ) (alive : ℕ → Bool) (fs : FileSystem)
      : Stage → FileSystem → Stage → Type 0 where
    link_first :
        {to : FileSystem}
        → link os 0 (tmpname p) lockfile fs ≡ linked to
        → Move p alive fs linking to dropping
    link_exists :
        link os 0 (tmpname p) lockfile fs ≡ file_exists → Move p alive fs linking fs (opening false)
    link_refused : link os 0 (tmpname p) lockfile fs ≡ refused → Move p alive fs linking fs leaving
    open_file :
        {b : Bool} {i : ℕ}
        → os.denies_open lockfile ≡ false
        → fs.file_at lockfile ≡ some i
        → Move p alive fs (opening b) fs (reading b i)
    open_fails :
        {b : Bool}
        → (os.denies_open lockfile ≡ true) ⊎ (fs.file_at lockfile ≡ none)
        → Move p alive fs (opening b) fs (verified b unverified p)
    read_pid :
        {b : Bool} {i : ℕ} {pid : ℤ}
        → read_owner os unset lockfile fs i ≡ some pid
        → Move p alive fs (reading b i) fs (testing b pid)
    read_fails :
        {b : Bool} {i : ℕ}
        → read_owner os unset lockfile fs i ≡ none
        → Move p alive fs (reading b i) fs (verified b unverified p)
    kill_pid :
        {b : Bool} {pid : ℤ}
        → Move p alive fs (testing b pid) fs (verified b (tested os alive pid) p)
    remove : Move p alive fs removing (unlink os lockfile fs).1 sleeping
    link_second :
        {to : FileSystem}
        → link os 1 (tmpname p) lockfile fs ≡ linked to
        → Move p alive fs sleeping to dropping
    link_lost :
        ((to : FileSystem) → link os 1 (tmpname p) lockfile fs ≢ linked to)
        → Move p alive fs sleeping fs leaving
    drop : Move p alive fs dropping (unlink os (tmpname p) fs).1 (opening true)
    leave : Move p alive fs leaving (unlink os (tmpname p) fs).1 done
    release : Move p alive fs holding (unlink os lockfile fs).1 done

  -- A process makes a call, or ends, where `may_end` lets it.
  pub data Step (may_end : Race → ℕ → Type 0) (s : Race) : Race → Type 0 where
    turn :
        (p : ℕ) {to : FileSystem} {after : Stage}
        → IsProcess p
        → s.alive p ≡ true
        → Move p s.alive s.fs (s.stage p) to after
        → Step may_end s (record s { fs = to; stage = moved s.stage p after })
    exit : (p : ℕ) → may_end s p → Step may_end s (record s { alive = moved s.alive p false })

  pub data Reach (may_end : Race → ℕ → Type 0) (s : Race) : Race → Type 0 where
    start : Reach may_end s s
    later : {t u : Race} → Reach may_end s t → Step may_end t u → Reach may_end s u

-- The process is behind the link of its own file.
abbrev pub owns : Stage → Bool
owns dropping = true
owns (opening true) = true
owns (reading true i) = true
owns (testing true pid) = true
owns holding = true
owns _ = false

abbrev pub breaks : Stage → Bool
breaks removing = true
breaks sleeping = true
breaks _ = false

abbrev pub waits : Stage → Bool
waits linking = true
waits _ = false

-- The temporary name of a process is its own, and names file `file p`.
pub record IsFair (lockfile : Text) (tmpname : ℕ → Text) (file : ℕ → ℕ) : Type 0 where
  pub apart : (p : ℕ) → tmpname p ≢ lockfile
  pub own_name : (p q : ℕ) → tmpname p ≡ tmpname q → p ≡ q
  pub own_file : (p q : ℕ) → file p ≡ file q → p ≡ q

-- A process that looks at the lock file of `p`: it has it open, or has read its number.
abbrev pub LooksAt : (ℕ → ℕ) → ℕ → Stage → Type 0
LooksAt file p (reading b i) = i ≡ file p
LooksAt file p (testing b pid) = pid ≡ pos p
LooksAt file p _ = ⊥

-- A process that ends has returned from `create_uucp_lockfile`, or given the lock up; its lock file does
-- not stand and no process looks at it.
pub record MayEnd (lockfile : Text) (file : ℕ → ℕ) (s : Race) (p : ℕ) : Type 0 where
  pub over : s.stage p ≡ done
  pub gone : s.fs.file_at lockfile ≢ some (file p)
  pub unseen : (q : ℕ) → ¬ LooksAt file p (s.stage q)

-- File `i` is that of a live process; `pid` is its number.
abbrev pub OfLive : (ℕ → ℕ) → (ℕ → Bool) → ℕ → Type 0
OfLive file alive i = (p : ℕ) × IsProcess p × (alive p ≡ true) × (i ≡ file p)

abbrev pub IsLive : (ℕ → Bool) → ℤ → Type 0
IsLive alive pid = (p : ℕ) × IsProcess p × (alive p ≡ true) × (pid ≡ pos p)

-- What a process looks at belongs to a live process.
abbrev pub SeesLive : (ℕ → ℕ) → (ℕ → Bool) → Stage → Type 0
SeesLive file alive (reading b i) = OfLive file alive i
SeesLive file alive (testing b pid) = IsLive alive pid
SeesLive file alive _ = Unit {0}

pub record Inv (lockfile : Text) (tmpname : ℕ → Text) (file : ℕ → ℕ) (s : Race) : Type 0 where
  pub ready : (p : ℕ) → waits (s.stage p) ≡ true → s.fs.file_at (tmpname p) ≡ some (file p)
  pub numbered : (p : ℕ) → s.fs.content (file p) ≡ pid_bytes p
  pub owned : (p : ℕ) → owns (s.stage p) ≡ true → s.fs.file_at lockfile ≡ some (file p)
  pub live : (i : ℕ) → s.fs.file_at lockfile ≡ some i → OfLive file s.alive i
  pub seen : (p : ℕ) → SeesLive file s.alive (s.stage p)
  pub unbroken : (p : ℕ) → breaks (s.stage p) ≡ false
