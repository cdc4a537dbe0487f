-- ===== src/Examples/Accepted.antt =====
-- A client that is silent until the idle timer runs out, from the opening of the port to its closing.
use serial_ip.Base.{true, false, false, some, [], ◌∷◌, ◌≡◌, arith, refl}
use serial_ip.Connection.{Connection, finished}
use serial_ip.Connection.Accepted.{
  Surroundings, Client, communicate, line_of, parent_accept_socket_connection,
  parent_accept_socket_connection-cleaned,
}
use serial_ip.Connection.Start.{serial_ip_communication_process-quiet}
use serial_ip.Device.{Device}
use serial_ip.Examples.{world, world-IsBounded, session}
use serial_ip.Examples.Connections.{globals, conf, quiet_round, quiet_rounds, quiet}
use serial_ip.Examples.Opening.{
  granting, granting_Grants, even_port, terminal, console_info, grants_lock, to_syslog, quiet_log,
  unlocks, garbage, syslog_name,
}
use serial_ip.Server.{network_init}
use serial_ip.Signals.{Debug, runs}

abbrev surroundings : Surroundings
surroundings = record {
  calls = granting;
  unlock = unlocks;
  described = λ i. even_port;
  sockets = record {
    opens = true;
    gets_flags = true;
    sets_flags = true;
    keeps_alive = true;
    reuses_address = true;
    binds = true;
    listens = true;
  };
  old_setting = garbage;
  new_setting = garbage;
}

abbrev silent : Client
silent = record {
  outside = world;
  conf = conf;
  bufsiz = 8192;
  allocated = λ call k. true;
  rounds = quiet_rounds;
  session = session;
  globals = globals;
}

silent_ends :
    (opened : Device) (h : Debug)
    → (c : Connection) × (communicate silent opened h ≡ some (finished c))
unfolding communicate
silent_ends opened h =
    let (b, c, waits, greets, over, sent, device, client) =
      serial_ip_communication_process-quiet world conf 8192 (λ call k. true) (quiet_round ∷ [])
        quiet_round quiet_round [] (record session { line = line_of opened })
        (record globals { debug = h }) (λ call k. refl) world-IsBounded refl (quiet, tt) quiet quiet
        refl refl (omega arith) (omega arith) in
    (c, over)

parent_accept_socket_connection-cleaned_example :
    (left : Device) × (h : Debug) × (parent_accept_socket_connection surroundings to_syslog
        grants_lock 2 silent
        (console_info ∷ [])
        terminal
        quiet_log
      ≡ some (runs (0, true, (console_info ∷ [], left, h))))
    × (left.settings ≡ garbage)
    × (left.is_open ≡ false)
    × (h.debug_level ≡ 0)
    × (h.has_file ≡ false)
unfolding network_init
parent_accept_socket_connection-cleaned_example =
    parent_accept_socket_connection-cleaned surroundings to_syslog grants_lock 0 silent console_info
      terminal quiet_log refl refl granting_Grants refl refl refl syslog_name silent_ends
