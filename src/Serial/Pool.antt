-- ===== src/Serial/Pool.antt =====
-- The pool of serial ports of serial_handle.c. Creating and removing a lock file, which
-- pidfile_handle.c does, are parameters here, and so are malloc(3) and strdup(3).
pub mod Selection
use serial_ip.Base.{
  ℕ, zero, suc, ◌+◌, Bool, true, false, ◌||◌, Option, none, some, List, [], ◌∷◌, ◌++◌, map, leb,
  ltb, if◌then◌else◌, length,
}
use serial_ip.Base.Integer.{ℤ, pos}
use serial_ip.Base.Text.{Text}

-- `struct serial_info_t`, as far as the pool uses it
pub record SerialInfo : Type 0 where
  pub device : Option Text
  pub lockfile : Option Text
  pub busy : Bool

-- `calloc` leaves everything empty.
abbrev pub alloc_serial_port : SerialInfo
alloc_serial_port = record { device = none; lockfile = none; busy = false }

abbrev pub max_sports : ℕ
max_sports = 256

-- `device_path == NULL` or `*device_path == '\0'`
abbrev pub no_path : Option Text → Bool
no_path none = true
no_path (some []) = true
no_path (some (c ∷ cs)) = false

-- `allocated` and `copied` tell whether calloc and strdup succeed; 0 is success, 1 failure.
unfoldable pub add_serial_port_info :
    Bool → Bool → List SerialInfo → Option Text → ℕ × List SerialInfo
add_serial_port_info allocated copied ports device_path =
    if no_path device_path || leb max_sports (length ports)
    then (1, ports)
    else if allocated
    then if copied
      then (0, ports ++ record alloc_serial_port { device = device_path } ∷ [])
      else (1, ports ++ alloc_serial_port ∷ [])
    else (0, ports)

-- `create_uucp_lockfile` for a device, `nbusy` attempts having failed, and, if it succeeds, what
-- strdup makes of the name of the lock file.
abbrev pub Locker : Type 0
Locker = ℕ → Option Text → Option (Option Text)

-- The port chosen, as an index, and the pool.
abbrev pub Choice : Type 0
Choice = Option ℕ × List SerialInfo

-- behind `create_uucp_lockfile` on the first port
unfoldable pub after_lock :
    (ℕ → List SerialInfo → Option Choice)
    → ℕ
    → SerialInfo
    → List SerialInfo
    → Option (Option Text)
    → Option Choice
after_lock loop nbusy p ports (some lockfile) =
    some (some 0, record p { lockfile = lockfile } ∷ ports)
after_lock loop nbusy p ports none = loop (nbusy + 1) (record p { busy = true } ∷ ports)

-- One round at `r = 0`, the index that the code always takes.
unfoldable pub try_first :
    Locker → (ℕ → List SerialInfo → Option Choice) → ℕ → List SerialInfo → Option Choice
unfolding after_lock
try_first lock loop nbusy [] = some (none, [])
try_first lock loop nbusy (p ∷ ports) =
    if p.busy then loop nbusy (p ∷ ports) else after_lock loop nbusy p ports (lock nbusy p.device)

-- The `while` loop on fuel; `none` is that it still runs.
unfoldable pub select_loop : Locker → ℕ → ℕ → List SerialInfo → Option Choice
select_loop lock zero nbusy ports = none
select_loop lock (suc fuel) nbusy ports =
    if ltb nbusy (length ports)
    then try_first lock (select_loop lock fuel) nbusy ports
    else some (none, ports)

abbrev pub clear_busy : SerialInfo → SerialInfo
clear_busy p = record p { busy = false }

unfoldable pub select_serial_port : Locker → ℕ → List SerialInfo → Option Choice
select_serial_port lock fuel ports = select_loop lock fuel 0 (map clear_busy ports)

-- behind the two checks of `release_serial_port`
abbrev pub unlocked : (Text → ℤ) → SerialInfo → Option Text → ℤ × SerialInfo
unlocked unlock p none = (pos 1, p)
unlocked unlock p (some device) = (unlock device, record p { lockfile = none })

-- `unlock` is what `unlock_uucp_lockfile` returns.
unfoldable pub release_serial_port : (Text → ℤ) → SerialInfo → ℤ × SerialInfo
release_serial_port unlock p = unlocked unlock p p.device
