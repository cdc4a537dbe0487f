-- ===== src/Server.antt =====
-- network_handle.c: the server's socket and the loops that accept clients; network_controller.c: the
-- options of a client's socket. What the system answers is a parameter.
pub mod Accepting
use serial_ip.Base.{
  ℕ, zero, suc, ◌+◌, Bool, true, false, ◌&&◌, ◌||◌, Option, none, some, List, [], ◌∷◌, ◌++◌, ◌==◌,
  if◌then◌else◌,
}
use serial_ip.Base.Text.{Text, codes, same_text}
use serial_ip.Signals.{Globals, Fate, runs, ends, and_then, parent_signal_received}

-- How the calls on a socket turn out.
pub record SocketCalls : Type 0 where
  pub opens : Bool
  pub gets_flags : Bool
  pub sets_flags : Bool
  pub keeps_alive : Bool
  pub reuses_address : Bool
  pub binds : Bool
  pub listens : Bool

unfoldable pub set_nonblocking_mode : SocketCalls → Bool
set_nonblocking_mode os = os.gets_flags && os.sets_flags

-- A new socket: none was opened, or one is left open or closed, and whether it is returned.
pub data Opened : Type 0 where
  nothing_opened : Opened
  closed : Opened
  left_open : Opened
  returned : Opened

-- behind the block mode
unfoldable pub configured : SocketCalls → Opened
configured os =
    if os.keeps_alive && os.reuses_address then if os.binds then returned else left_open else closed

-- A failure of listen is only logged.
unfoldable pub create_server_socket : SocketCalls → Bool → Opened
unfolding set_nonblocking_mode configured
create_server_socket os nonblocking =
    if os.opens
    then if nonblocking
      then if set_nonblocking_mode os then configured os else closed
      else configured os
    else nothing_opened

-- The number of errors, and whether the socket now has the block mode asked for.
unfoldable pub network_init : SocketCalls → ℕ × Bool
network_init os =
    let set = os.gets_flags && os.sets_flags in
    ((if os.keeps_alive then 0 else 1) + (if set then 0 else 1), set)

-- What accept(2) answers: a client on a descriptor, and whether fork would succeed for it, an
-- interruption by a signal, whose handler has then run, or another error.
pub data Accept : Type 0 where
  client : ℕ → Bool → Accept
  signaled : ℕ → Accept
  accept_error : Accept

-- The globals of the server, and the clients served, in order.
pub record Server : Type 0 where
  pub globals : Globals
  pub served : List ℕ

-- `(*sighandler)(*signo)` when `accept` fails; nothing clears `signo`.
unfoldable pub accept_failed : Bool → Globals → Fate Globals
accept_failed starts g = if g.signo == 0 then runs g else parent_signal_received starts g.signo g

abbrev pub with_globals : Server → Globals → Fate Server
with_globals s g = runs (record s { globals = g })

-- The function that serves a client, in the process that calls it: it may end that process, and change
-- its globals.
abbrev pub Service : Type 0
Service = ℕ → Globals → Fate (ℕ × Globals)

-- One round of `iterative_server` and of `raw_tcp_gateway`.
unfoldable pub iterative_round : Bool → Service → Accept → Server → Fate Server
unfolding accept_failed
iterative_round starts funct (client fd forks) s =
    and_then (funct fd s.globals)
      λ (ret, g). runs (record s { globals = g; served = s.served ++ fd ∷ [] })
iterative_round starts funct (signaled signal) s =
    and_then (parent_signal_received starts signal s.globals)
      λ g. and_then (accept_failed starts g) (with_globals s)
iterative_round starts funct accept_error s =
    and_then (accept_failed starts s.globals) (with_globals s)

-- One round of `concurrent_server`: the child serves the client on its own copy of the globals,
-- whatever becomes of it.
unfoldable pub concurrent_round : Bool → Accept → Server → Fate Server
unfolding accept_failed
concurrent_round starts (client fd true) s = runs (record s { served = s.served ++ fd ∷ [] })
concurrent_round starts (client fd false) s = runs s
concurrent_round starts (signaled signal) s =
    and_then (parent_signal_received starts signal s.globals)
      λ g. and_then (accept_failed starts g) (with_globals s)
concurrent_round starts accept_error s = and_then (accept_failed starts s.globals) (with_globals s)

-- The endless loop, as far as the answers go.
unfoldable pub accept_loop : (Accept → Server → Fate Server) → List Accept → Server → Fate Server
accept_loop turn [] s = runs s
accept_loop turn (a ∷ answers) s = and_then (turn a s) (accept_loop turn answers)

unfoldable pub iterative_server : Bool → Service → List Accept → Server → Fate Server
unfolding iterative_round accept_loop
iterative_server starts funct = accept_loop (iterative_round starts funct)

unfoldable pub raw_tcp_gateway : Bool → Service → List Accept → Server → Fate Server
unfolding iterative_round accept_loop
raw_tcp_gateway starts funct = accept_loop (iterative_round starts funct)

unfoldable pub concurrent_server : Bool → List Accept → Server → Fate Server
unfolding concurrent_round accept_loop
concurrent_server starts = accept_loop (concurrent_round starts)

-- What `handle_network_connection` asks of the system before the connection is served.
pub record Rights : Type 0 where
  pub enters_directory : Bool
  pub sets_group : Bool
  pub sets_user : Bool

-- `session` is `parent_accept_socket_connection` on the client's socket, as far as its result and the
-- globals go.
unfoldable pub handle_network_connection : Rights → (Globals → Fate (ℕ × Globals)) → Service
handle_network_connection os session fd g =
    if os.enters_directory && os.sets_group && os.sets_user
    then session (record g { gsockfd = true })
    else ends 1

-- `server_init`: by the name of the server type; another one ends the program.
unfoldable pub server_init :
    SocketCalls → Text → Bool → Service → List Accept → Server → Fate Server
unfolding create_server_socket concurrent_server iterative_server raw_tcp_gateway
server_init os server_type starts funct answers s = elim (create_server_socket os false) [
  | returned ↦
      if same_text server_type (codes "concurrent")
      then concurrent_server starts answers s
      else if same_text server_type (codes "iterative")
      then iterative_server starts funct answers s
      else if same_text server_type (codes "raw TCP gateway")
      then raw_tcp_gateway starts funct answers s
      else ends 1
  | _ ↦ ends 1
]
