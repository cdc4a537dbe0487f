-- ===== src/Server/Accepting.antt =====
-- What the servers have in common, and what a signal does to them.
use serial_ip.Base.{
  ℕ, zero, suc, ◌+◌, ◌≤◌, min, Bool, true, false, List, [], ◌∷◌, ◌++◌, ◌≡◌, ◌⊎◌, ◌↔◌, refl, sym, ap,
  ◌∙◌, ◌||◌, ltb, leb, arith, ◌==◌, inl, inr, Bool-cases, if◌then◌else◌,
}
use serial_ip.Server.{
  SocketCalls, create_server_socket, set_nonblocking_mode, configured, left_open, Accept, Service,
  client, signaled, accept_error, Server, with_globals, accept_failed, iterative_round,
  concurrent_round, accept_loop, iterative_server, concurrent_server,
}
use serial_ip.Signals.{
  Globals, Fate, runs, ends, and_then, parent_signal_received, parent_action, action_sigusr1,
  set_debug_level, sigusr1, sigusr2, sigterm, sigint, sigquit, sighup, max_level,
}

-- Every client got a process.
abbrev pub AllForked : List Accept → Type 0
AllForked [] = Unit {0}
AllForked (client fd forks ∷ answers) = (forks ≡ true) × AllForked answers
AllForked (_ ∷ answers) = AllForked answers

-- Two processes end with the same status, or go on with values that `R` relates.
abbrev Alike {ℓ} : {A : Type ℓ} → (A → A → Type 0) → Fate A → Fate A → Type 0
Alike R (runs x) (runs y) = R x y
Alike R (runs x) (ends b) = ⊥
Alike R (ends a) (runs y) = ⊥
Alike R (ends a) (ends b) = a ≡ b

and_then-Alike :
    {A B : Type 0} (R : A → A → Type 0) (S : B → B → Type 0) (a b : Fate A) (f h : A → Fate B)
    → Alike R a b
    → ((x y : A) → R x y → Alike S (f x) (h y))
    → Alike S (and_then a f) (and_then b h)
and_then-Alike R S (runs x) (runs y) f h e k = k x y e
and_then-Alike R S (runs x) (ends m) f h e k = absurd e
and_then-Alike R S (ends n) (runs y) f h e k = absurd e
and_then-Alike R S (ends n) (ends m) f h e k = e

abbrev SameSigno : Globals → Globals → Type 0
SameSigno g h = g.signo ≡ h.signo

abbrev SameServed : Server → Server → Type 0
SameServed s t = (s.served ≡ t.served) × (s.globals.signo ≡ t.globals.signo)

abbrev Any : Globals → Globals → Type 0
Any g h = Unit {0}

-- Whether a signal ends the server does not depend on its globals.
parent_action-Alike :
    (starts : Bool) (signal : ℕ) (g h : Globals)
    → Alike Any (parent_action starts signal g) (parent_action starts signal h)
unfolding parent_action
parent_action-Alike starts signal g h =
    elim (Bool-cases (signal == sigterm || signal == sigint || signal == sigquit)) [
      | inl e ↦ rw e refl
      | inr e ↦ elim (Bool-cases (signal == sighup)) [
        | inl f ↦ elim (Bool-cases starts) [ inl k ↦ rw (e, f, k) tt | inr k ↦ rw (e, f, k) refl ]
        | inr f ↦ elim (Bool-cases (signal == sigusr1)) [
          | inl k ↦ rw (e, f, k) tt
          | inr k ↦ elim (Bool-cases (signal == sigusr2)) [
            | inl l ↦ rw (e, f, k, l) tt
            | inr l ↦ rw (e, f, k, l) tt
          ]
        ]
      ]
    ]

parent_signal_received-Alike :
    (starts : Bool) (signal : ℕ) (g h : Globals)
    → Alike SameSigno
        (parent_signal_received starts signal g)
        (parent_signal_received starts signal h)
unfolding parent_signal_received
parent_signal_received-Alike starts signal g h =
    and_then-Alike Any SameSigno (parent_action starts signal g) (parent_action starts signal h) _ _
      (parent_action-Alike starts signal g h) (λ x y any. refl)

accept_failed-Alike :
    (starts : Bool) (g h : Globals)
    → g.signo ≡ h.signo
    → Alike SameSigno (accept_failed starts g) (accept_failed starts h)
unfolding accept_failed
accept_failed-Alike starts g h e = elim (Bool-cases (g.signo == 0)) [
  | inl z ↦ let z' : h.signo == 0 ≡ true = rw e at z in rw (z, z') e
  | inr z ↦
      let z' : h.signo == 0 ≡ false = rw e at z in
      rw (z, z', e) (parent_signal_received-Alike starts h.signo (record g { signo = h.signo }) h)
]

-- Behind an accept that failed, both servers call the handler for the same signal.
failed-Alike :
    (starts : Bool) (s t : Server) (g h : Globals)
    → s.served ≡ t.served
    → g.signo ≡ h.signo
    → Alike SameServed
        (and_then (accept_failed starts g) (with_globals s))
        (and_then (accept_failed starts h) (with_globals t))
failed-Alike starts s t g h same e =
    and_then-Alike SameSigno SameServed (accept_failed starts g) (accept_failed starts h)
      (with_globals s) (with_globals t) (accept_failed-Alike starts g h e) (λ x y k. (same, k))

accept_loop-Alike :
    (starts : Bool) (funct : Service) (answers : List Accept) (s t : Server)
    → ((fd : ℕ) (g : Globals)
        → (ret : ℕ) × (h : Globals) × (funct fd g ≡ runs (ret, h)) × (h.signo ≡ g.signo))
    → AllForked answers
    → SameServed s t
    → Alike SameServed
        (accept_loop (concurrent_round starts) answers s)
        (accept_loop (iterative_round starts funct) answers t)
unfolding accept_loop concurrent_round iterative_round
accept_loop-Alike starts funct [] s t f h e = e
accept_loop-Alike starts funct (client fd forks ∷ answers) s t f h e =
    let (ret, g, runs_on, signo) = f fd t.globals in
    rw (h.0, runs_on)
      (accept_loop-Alike starts funct answers (record s { served = s.served ++ fd ∷ [] })
        (record t { globals = g; served = t.served ++ fd ∷ [] }) f h.1
        (ap (λ l. l ++ fd ∷ []) e.0, e.1 ∙ sym signo))
accept_loop-Alike starts funct (signaled signal ∷ answers) s t f h e =
    and_then-Alike SameServed SameServed _ _ _ _
      (and_then-Alike SameSigno SameServed _ _ _ _
        (parent_signal_received-Alike starts signal s.globals t.globals)
        (λ x y k. failed-Alike starts s t x y e.0 k))
      (λ x y k. accept_loop-Alike starts funct answers x y f h k)
accept_loop-Alike starts funct (accept_error ∷ answers) s t f h e =
    and_then-Alike SameServed SameServed _ _ _ _
      (failed-Alike starts s t s.globals t.globals e.0 e.1)
      (λ x y k. accept_loop-Alike starts funct answers x y f h k)

-- The clients of a server that goes on, or the status with which it ended.
abbrev pub clients : Fate Server → Fate (List ℕ)
clients (runs s) = runs s.served
clients (ends status) = ends status

clients-Alike : (a b : Fate Server) → Alike SameServed a b → clients a ≡ clients b
clients-Alike (runs s) (runs t) e = ap runs e.0
clients-Alike (runs s) (ends n) e = absurd e
clients-Alike (ends n) (runs t) e = absurd e
clients-Alike (ends n) (ends m) e = ap ends e

-- When every client gets a process, and serving a client returns and, whatever else it does to the
-- globals of the process, keeps the signal noted, the concurrent and the iterative server, given
-- the same answers of accept, serve the same clients in the same order or end with the same
-- status.
pub concurrent_server-iterative_server :
    (starts : Bool) (funct : Service) (answers : List Accept) (s : Server)
    → ((fd : ℕ) (g : Globals)
        → (ret : ℕ) × (h : Globals) × (funct fd g ≡ runs (ret, h)) × (h.signo ≡ g.signo))
    → AllForked answers
    → clients (concurrent_server starts answers s)
      ≡ clients (iterative_server starts funct answers s)
unfolding concurrent_server iterative_server
concurrent_server-iterative_server starts funct answers s f h =
    clients-Alike (accept_loop (concurrent_round starts) answers s)
      (accept_loop (iterative_round starts funct) answers s)
      (accept_loop-Alike starts funct answers s s f h (refl, refl))

abbrev set_level : Globals → ℕ → Globals
set_level g level = record g { debug = record g.debug { debug_level = level } }

action_sigusr1_lem :
    (g : Globals)
    → g.debug.debug_level ≤ max_level
    → action_sigusr1 g ≡ set_level g (min max_level (g.debug.debug_level + 1))
unfolding action_sigusr1 set_debug_level
action_sigusr1_lem g h = elim (Bool-cases (ltb g.debug.debug_level max_level)) [
  | inl less ↦
      let fits : leb (g.debug.debug_level + 1) max_level ≡ true = ground arith in
      rw (less, fits) (ap (set_level g) (ground arith))
  | inr full ↦ rw full (ap (set_level g) (ground arith))
]

-- One call of the handler.
usr1 :
    (starts : Bool) (g : Globals)
    → g.debug.debug_level ≤ max_level
    → parent_signal_received starts sigusr1 g
      ≡ runs (record (set_level g (min max_level (g.debug.debug_level + 1))) { signo = sigusr1 })
unfolding parent_signal_received parent_action
usr1 starts g h = rw (action_sigusr1_lem g h) refl

again :
    (starts : Bool) (g : Globals) (n : ℕ)
    → n ≡ sigusr1
    → (if n == 0 then runs g else parent_signal_received starts n g)
      ≡ parent_signal_received starts sigusr1 g
again starts g n e = rw e refl

accept_failed-usr1 :
    (starts : Bool) (g : Globals)
    → g.debug.debug_level ≤ max_level
    → g.signo ≡ sigusr1
    → accept_failed starts g
      ≡ runs (record (set_level g (min max_level (g.debug.debug_level + 1))) { signo = sigusr1 })
unfolding accept_failed
accept_failed-usr1 starts g h e = again starts g g.signo e ∙ usr1 starts g h

-- Answers of accept that are errors only.
abbrev pub errors : ℕ → List Accept
errors zero = []
errors (suc n) = accept_error ∷ errors n

abbrev pub with_level : Server → ℕ → Server
with_level s level = record s {
  globals = record s.globals {
    debug = record s.globals.debug { debug_level = level };
    signo = sigusr1;
  };
}

errors-usr1 :
    (starts : Bool) (funct : Service) (n : ℕ) (s : Server)
    → s.globals.debug.debug_level ≤ max_level
    → s.globals.signo ≡ sigusr1
    → accept_loop (iterative_round starts funct) (errors n) s
      ≡ runs (with_level s (min max_level (s.globals.debug.debug_level + n)))
unfolding accept_loop iterative_round
errors-usr1 starts funct zero s h e =
    let same : s.globals.debug.debug_level ≡ min max_level (s.globals.debug.debug_level + 0) =
      omega arith in
    rw (← same, ← e) refl
errors-usr1 starts funct (suc n) s h e =
    let level = s.globals.debug.debug_level in
    rw (accept_failed-usr1 starts s.globals h e) (
      errors-usr1 starts funct n (with_level s (min max_level (level + 1))) (omega arith) refl
      ∙ ap (λ l. runs (with_level s l)) (omega arith))

-- One SIGUSR1 that interrupts accept, followed by `n` further errors of accept, raises the debug
-- level of a server, not above 9 before, by `n + 2`, up to 9.
pub iterative_server-usr1 :
    (starts : Bool) (funct : Service) (n : ℕ) (s : Server)
    → s.globals.debug.debug_level ≤ max_level
    → iterative_server starts funct (signaled sigusr1 ∷ errors n) s
      ≡ runs (with_level s (min max_level (s.globals.debug.debug_level + 2 + n)))
unfolding iterative_server accept_loop iterative_round accept_failed
iterative_server-usr1 starts funct n s h =
    let level = s.globals.debug.debug_level in
    let once = record (set_level s.globals (min max_level (level + 1))) { signo = sigusr1 } in
    rw (usr1 starts s.globals h, usr1 starts once (omega arith))
      (errors-usr1 starts funct n (with_level s (min max_level (min max_level (level + 1) + 1)))
          (omega arith) refl
        ∙ ap (λ l. runs (with_level s l)) (omega arith))

-- The socket is left open without being returned exactly if bind fails.
pub create_server_socket-left_open :
    (os : SocketCalls) (nonblocking : Bool)
    → (create_server_socket os nonblocking ≡ left_open) ↔ (
        (os.opens ≡ true)
        × ((nonblocking ≡ false) ⊎ (set_nonblocking_mode os ≡ true))
        × (os.keeps_alive ≡ true)
        × (os.reuses_address ≡ true)
        × (os.binds ≡ false))
unfolding create_server_socket set_nonblocking_mode configured
create_server_socket-left_open os nonblocking = ground arith
