-- ===== src/Serial/Pool/Selection.antt =====
-- Which port is chosen, and when the choice ends.
use serial_ip.Base.{
  ℕ, zero, suc, ◌≤◌, ◌<◌, Bool, true, false, ◌||◌, Option, none, some, List, [], ◌∷◌, ◌++◌, ◌≡◌,
  ◌⊎◌, inl, inr, refl, map, leb, ltb, ltb_of_lt, if◌then◌else◌, length, length-append, arith,
  Bool-cases, Option-cases,
}
use serial_ip.Base.Text.{Text}
use serial_ip.Serial.Pool.{
  SerialInfo, Locker, alloc_serial_port, add_serial_port_info, after_lock, try_first, select_loop,
  select_serial_port, clear_busy, max_sports, no_path,
}

-- What the lock of the only port makes of it.
abbrev pub locked : SerialInfo → Option (Option Text) → Option ℕ × List SerialInfo
locked p (some lockfile) = (some 0, record p { lockfile = lockfile; busy = false } ∷ [])
locked p none = (none, record p { busy = true } ∷ [])

-- With one port the choice ends after two rounds at most: the port is chosen with its lock file if
-- it can be locked, and is marked busy and none is chosen if not.
pub select_serial_port-one :
    (lock : Locker) (p : SerialInfo) (fuel : ℕ)
    → select_serial_port lock (suc (suc fuel)) (p ∷ []) ≡ some (locked p (lock 0 p.device))
unfolding select_serial_port select_loop try_first after_lock
select_serial_port-one lock p fuel = elim (Option-cases (lock 0 p.device)) [
  | inl e ↦ rw e refl
  | inr (lockfile, e) ↦ rw e refl
]

-- A busy first port is tried again and again.
busy_runs :
    (lock : Locker) (p : SerialInfo) (ports : List SerialInfo) (nbusy fuel : ℕ)
    → nbusy ≤ length ports
    → select_loop lock fuel nbusy (record p { busy = true } ∷ ports) ≡ none
unfolding select_loop try_first
busy_runs lock p ports nbusy zero l = refl
busy_runs lock p ports nbusy (suc fuel) l =
    let more : ltb nbusy (suc (length ports)) ≡ true = ltb_of_lt (omega arith) in
    rw more (busy_runs lock p ports nbusy fuel l)

-- With two ports or more, the first of which cannot be locked, the loop that chooses a port is
-- still running after any number of rounds.
pub select_serial_port-runs :
    (lock : Locker) (p q : SerialInfo) (ports : List SerialInfo)
    → lock 0 p.device ≡ none
    → (fuel : ℕ) → select_serial_port lock fuel (p ∷ q ∷ ports) ≡ none
unfolding select_serial_port select_loop try_first after_lock
select_serial_port-runs lock p q ports e zero = refl
select_serial_port-runs lock p q ports e (suc fuel) =
    let some_left : ltb 0 (suc (suc (length (map clear_busy ports)))) ≡ true =
      ltb_of_lt (omega arith) in
    rw (some_left, e) (busy_runs lock p (map clear_busy (q ∷ ports)) 1 fuel (omega arith))

-- What a call of `add_serial_port_info` leaves, for what it returns.
abbrev Added : Bool → Bool → List SerialInfo → Option Text → ℕ × List SerialInfo → Type 0
Added allocated copied ports device_path (ret, after) =
    (length after ≤ max_sports)
    × ((after ≡ ports)
        ⊎ ((allocated ≡ true)
            × (after
                ≡ ports
                  ++ record alloc_serial_port { device = (if copied then device_path else none) }
                    ∷ [])
            × (ret ≡ (if copied then 0 else 1))))

added :
    (allocated copied : Bool) (ports : List SerialInfo) (device_path : Option Text)
    → length ports < max_sports
    → Added allocated copied ports device_path (
        if allocated
        then if copied
          then (0, ports ++ record alloc_serial_port { device = device_path } ∷ [])
          else (1, ports ++ alloc_serial_port ∷ [])
        else (0, ports))
added false copied ports device_path room = (omega arith, inl refl)
added true true ports device_path room =
    let one = length-append ports (record alloc_serial_port { device = device_path } ∷ []) in
    (omega arith, inr (refl, refl, refl))
added true false ports device_path room =
    let one = length-append ports (alloc_serial_port ∷ []) in (omega arith, inr (refl, refl, refl))

has_room :
    (ports : List SerialInfo) (b : Bool)
    → (b || leb max_sports (length ports)) ≡ false
    → length ports < max_sports
has_room ports b h = ground arith

-- Adding a port to a pool that is within its array keeps it so. It leaves the pool as it was, or,
-- if the allocation succeeds, adds one port behind the others: with its path and 0 returned, or,
-- if the path cannot be copied, without one and 1 returned.
pub add_serial_port_info-Added :
    (allocated copied : Bool) (ports : List SerialInfo) (device_path : Option Text)
    → length ports ≤ max_sports
    → Added allocated copied ports device_path
        (add_serial_port_info allocated copied ports device_path)
unfolding add_serial_port_info
add_serial_port_info-Added allocated copied ports device_path h =
    elim (Bool-cases (no_path device_path || leb max_sports (length ports))) [
      | inl refused ↦ rw refused (h, inl refl)
      | inr fits ↦
          rw fits
            (added allocated copied ports device_path (has_room ports (no_path device_path) fits))
    ]
