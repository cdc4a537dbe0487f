-- ===== src/Examples/Connections.antt =====
-- Connections, servers and signals.
use serial_ip.Base.{
  ℕ, zero, suc, true, false, none, some, List, [], ◌∷◌, ◌++◌, ◌≡◌, refl, arith, ltb, if◌then◌else◌,
}
use serial_ip.Base.Integer.{pos}
use serial_ip.Base.Memory.{Memory}
use serial_ip.Buffer.{ReadAnswer, stored, read_interrupted}
use serial_ip.Buffer.Fill.{IsBoundedRead}
use serial_ip.Connection.{
  Settings, Connection, Round, Select, select_timeout, select_ready, run, finished, waiting,
  from_device, from_client,
}
use serial_ip.Connection.Delivery.{Passed, from_device-Passed, from_client-Passed}
use serial_ip.Connection.Idle.{run-quiet, idled, IsQuiet, IsLive, goodbye}
use serial_ip.Examples.{
  world, world-IsBounded, session, session-HasRoom, filled, takes_all, takes_all-IsBoundedWrite,
}
use serial_ip.Raw.{raw_tcp_socket_to_serial}
use serial_ip.Raw.Forwarded.{raw_tcp_socket_to_serial-forwards, raw_tcp_socket_to_serial_fault}
use serial_ip.Server.{
  Server, Service, Accept, client, signaled, accept_error, concurrent_server, iterative_server,
}
use serial_ip.Server.Accepting.{
  clients, concurrent_server-iterative_server, iterative_server-usr1, with_level,
}
use serial_ip.Signals.{Globals, runs, close_debug, sigusr1, Wait, reaped, interrupted}
use serial_ip.Telnet.Commands.Items.{Item, plain, command, escaped, short}
use serial_ip.Telnet.Negotiation.Stream.{stream}

abbrev pub globals : Globals
globals = record {
  debug = record { debug_level = 3; has_file = false };
  signo = 0;
  signo_child = 0;
  break_signaled = false;
  linestate = 0;
  gsockfd = true;
}

-- The bytes `held` of the client are in the buffer.
abbrev connection : List ℕ → Connection
connection held = record {
  socket_to_serial = filled held;
  serial_to_socket = filled [];
  session = session;
  globals = globals;
  idle = false;
  idle_cnt = 0;
  error = 0;
  to_serial = [];
  to_socket = [];
}

abbrev pub conf : Settings
conf = record {
  idletimer = 2;
  ms_pollinterval = 1;
  ls_pollinterval = 30;
  send_logout = 0;
  noquote = false;
  raw_flag = false;
}

-- Asked for two bytes or more, the descriptor delivers IAC 'c'.
abbrev delivers : ℕ → ReadAnswer
delivers n = if ltb n 2 then read_interrupted else stored (255 ∷ 99 ∷ [])

delivers-IsBoundedRead : IsBoundedRead delivers
delivers-IsBoundedRead n = ground arith

abbrev some_round : Select → Round
some_round select = record {
  select = select;
  elapsed = 1;
  from_socket = delivers;
  on_serial = takes_all;
  from_serial = delivers;
  on_socket = takes_all;
  signal = none;
  unset = pos 0;
  raw_buffer = λ i. 0;
  command = λ i. 0;
}

abbrev pub quiet_round : Round
quiet_round = some_round select_timeout

pub quiet : IsQuiet quiet_round
quiet = record { timed_out = refl; unsignaled = refl }

abbrev pub quiet_rounds : List Round
quiet_rounds = quiet_round ∷ quiet_round ∷ quiet_round ∷ []

live : IsLive (connection [])
live = record {
  logged_in = refl;
  awake = refl;
  sound = refl;
  unsignaled = refl;
  room = session-HasRoom 45 (omega arith);
}

run-quiet_example :
    (run world conf (quiet_round ∷ quiet_round ∷ []) (connection [])
      ≡ waiting (idled (connection []) 2))
    × (d : Connection) × (run world conf quiet_rounds (connection []) ≡ finished d)
    × (d.idle ≡ true)
    × (stream d.session ≡ stream session ++ goodbye false session)
    × (d.to_serial ≡ [])
    × (d.to_socket ≡ [])
run-quiet_example =
    run-quiet world conf (quiet_round ∷ []) quiet_round quiet_round [] (connection [])
      world-IsBounded (quiet, tt) quiet quiet live (omega arith) (omega arith)

from_device-Passed_example :
    (d : Connection) × (from_device conf (some_round (select_ready false)) (connection []) ≡ some d)
    × Passed [] (255 ∷ 255 ∷ 99 ∷ []) d.to_socket d.serial_to_socket
    × (d.session ≡ session)
    × (d.globals.linestate ≡ 1)
from_device-Passed_example =
    from_device-Passed conf (some_round (select_ready false)) (connection []) refl 255 (99 ∷ [])
      refl delivers-IsBoundedRead takes_all-IsBoundedWrite
      (record { valid = omega arith; bytes = refl }) refl (omega arith)

-- The first IAC of a pair was read before.
abbrev first_half : List ℕ
first_half = 97 ∷ 255 ∷ 241 ∷ 255 ∷ []

abbrev whole_items : List Item
whole_items = plain 97 ∷ command (short 241) ∷ command escaped ∷ plain 99 ∷ []

from_client-Passed_example :
    (d : Connection) × (from_client world conf
        (some_round (select_ready true))
        (connection first_half)
      ≡ some d)
    × Passed [] (97 ∷ 255 ∷ 99 ∷ []) d.to_serial d.socket_to_serial
    × (d.session ≡ session)
from_client-Passed_example =
    from_client-Passed conf (some_round (select_ready true)) (connection first_half) refl world
      first_half 255 (99 ∷ []) whole_items session delivers-IsBoundedRead takes_all-IsBoundedWrite
      (record { valid = omega arith; bytes = refl }) refl refl
      ((λ e. absurd (omega arith)), ((refl, refl, refl), (tt, ((λ e. absurd (omega arith)), tt))))
      refl

abbrev untouched : Memory
untouched i = 7

raw_tcp_socket_to_serial-forwards_example :
    raw_tcp_socket_to_serial delivers takes_all untouched untouched ≡ some (0, 255 ∷ 99 ∷ 0 ∷ [])
raw_tcp_socket_to_serial-forwards_example =
    raw_tcp_socket_to_serial-forwards delivers takes_all untouched untouched 255 (99 ∷ []) refl
      (omega arith)

abbrev zeros : ℕ → List ℕ
zeros zero = []
zeros (suc n) = 0 ∷ zeros n

raw_tcp_socket_to_serial_fault_example :
    raw_tcp_socket_to_serial (λ n. stored (zeros 100)) takes_all untouched untouched ≡ none
raw_tcp_socket_to_serial_fault_example =
    raw_tcp_socket_to_serial_fault (λ n. stored (zeros 100)) takes_all untouched untouched
      (zeros 100) refl (omega arith) (omega arith)

abbrev server : Server
server = record { globals = globals; served = [] }

-- Closing the port resets the debugging log of the process.
abbrev resets : Service
resets fd g = runs (0, record g { debug = close_debug g.debug })

abbrev arrivals : List Accept
arrivals = client 5 true ∷ signaled sigusr1 ∷ accept_error ∷ client 6 true ∷ []

concurrent_server-iterative_server_example :
    clients (concurrent_server true arrivals server)
    ≡ clients (iterative_server true resets arrivals server)
concurrent_server-iterative_server_example =
    concurrent_server-iterative_server true resets arrivals server
      (λ fd g. (0, record g { debug = close_debug g.debug }, refl, refl)) (refl, (refl, tt))

iterative_server-usr1_example :
    iterative_server true resets (signaled sigusr1 ∷ accept_error ∷ []) server
    ≡ runs (with_level server 6)
iterative_server-usr1_example = iterative_server-usr1 true resets 1 server (omega arith)

abbrev deaths : List Wait
deaths = reaped 31 ∷ interrupted ∷ reaped 32 ∷ []
