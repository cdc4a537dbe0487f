-- ===== src/Connection.antt =====
-- network_handle.c: the loop that serves one client, as a function of one round and what the system
-- answers in it, and the loop over a list of rounds.
pub mod Start
pub mod Accepted
pub mod Idle
pub mod Delivery
use serial_ip.Base.{
  ℕ, zero, suc, ◌+◌, ◌-◌, Bool, true, false, not, ◌&&◌, Option, none, some, List, [], ◌∷◌, ◌++◌,
  ltb, leb, min, ◌==◌, if◌then◌else◌, ◌>>=◌,
}
use serial_ip.Base.Integer.{ℤ}
use serial_ip.Base.Memory.{Memory}
use serial_ip.Base.Text.{Text, codes}
use serial_ip.Buffer.{Buffer, ReadAnswer, WriteAnswer, bfstrcat}
use serial_ip.NetworkController.{read_socket, write_serial, read_serial, write_socket}
use serial_ip.Raw.{raw_tcp_socket_to_serial, raw_data_to_tcp_socket}
use serial_ip.Signals.{
  Globals, Fate, runs, ends, and_then, child_pending_signal_handle, child_signal_received,
}
use serial_ip.Telnet.Codes.{do_, telopt_logout}
use serial_ip.Telnet.Negotiation.{send_telnet_option}
use serial_ip.Telnet.Session.{Session, Outside, write_out}

-- What `conf` and the command line say for the loop.
pub record Settings : Type 0 where
  pub idletimer : ℕ
  pub ms_pollinterval : ℕ
  pub ls_pollinterval : ℕ
  pub send_logout : ℕ  -- "send Telnet LOGOUT", which no code reads
  pub noquote : Bool
  pub raw_flag : Bool

-- The variables of `serial_ip_communication_process`, its session and the globals that signals change.
-- The last two are the bytes that went to the device and, beside the session's, to the socket.
pub record Connection : Type 0 where
  pub socket_to_serial : Buffer
  pub serial_to_socket : Buffer
  pub session : Session
  pub globals : Globals
  pub idle : Bool
  pub idle_cnt : ℕ
  pub error : ℕ
  pub to_serial : List ℕ
  pub to_socket : List ℕ

-- What select(2) says: an error, nothing in time, or that a descriptor is ready, and whether the socket is.
pub data Select : Type 0 where
  select_error : Select
  select_timeout : Select
  select_ready : Bool → Select

-- What the system answers in one round.
pub record Round : Type 0 where
  pub select : Select
  pub elapsed : ℕ  -- seconds spent in select
  pub from_socket : ℕ → ReadAnswer
  pub on_serial : List ℕ → WriteAnswer
  pub from_serial : ℕ → ReadAnswer
  pub on_socket : List ℕ → WriteAnswer
  pub signal : Option ℕ  -- one that arrives
  pub unset : ℤ  -- of variables that nothing sets
  pub raw_buffer : Memory
  pub command : Memory

-- The timeout of select.
unfoldable pub tvsecs : Settings → ℕ
tvsecs conf =
    let polls = min conf.ms_pollinterval conf.ls_pollinterval in
    if ltb 0 conf.idletimer then min conf.idletimer polls else polls

abbrev pub idle_message : Text
idle_message = 13 ∷ 10 ∷ codes "serial_ip: terminating idle connection" ++ 13 ∷ 10 ∷ []

-- The message goes out at once, whatever the session's state is.
unfoldable pub announce : Outside → Session → Option Session
announce os s =
    bfstrcat s.out idle_message >>= λ (len, out). some (write_out os (record s { out = out })).1

unfoldable pub say_goodbye : Outside → Bool → Session → Option Session
unfolding announce
say_goodbye os true s = announce os s
say_goodbye os false s =
    announce os s >>= λ t. send_telnet_option os do_ telopt_logout t >>= λ (ret, u). some u

abbrev pub is_over : Settings → ℕ → Bool
is_over conf idle_cnt = ltb 0 conf.idletimer && leb conf.idletimer idle_cnt

-- The head of a round: a connection that was idle for long enough is told so.
unfoldable pub check_idle : Outside → Settings → Connection → Option Connection
check_idle os conf c =
    if is_over conf c.idle_cnt
    then (say_goodbye os conf.raw_flag c.session >>= λ s.
        some (record c { idle = true; session = s }))
    else some c

-- The write to the device.
abbrev pub to_device : Round → Connection → Connection
to_device r c =
    let (e, b, out) = write_serial r.on_serial c.socket_to_serial in
    record c { error = e; socket_to_serial = b; to_serial = c.to_serial ++ out }

-- The data of the socket, and, unless that is an error, on to the device.
unfoldable pub from_client : Outside → Settings → Round → Connection → Option Connection
from_client os conf r c =
    if conf.raw_flag
    then (raw_tcp_socket_to_serial r.from_socket r.on_serial r.raw_buffer r.command >>= λ (e, out).
        some (record c { error = e; to_serial = c.to_serial ++ out }))
    else (read_socket os r.from_socket false r.unset c.socket_to_serial c.session >>= λ (e, b, s).
        if e == 0
        then some (to_device r (record c { socket_to_serial = b; session = s }))
        else some (record c { error = e; socket_to_serial = b; session = s }))

-- The write to the socket.
abbrev pub to_client : Round → Connection → Connection
to_client r c =
    let (e, b, out) = write_socket r.on_socket c.session.session_state c.serial_to_socket in
    record c { error = e; serial_to_socket = b; to_socket = c.to_socket ++ out }

-- behind `read_serial`
abbrev pub pass_on : Round → Connection → Connection
pass_on r c = if c.error == 0 then to_client r c else c

-- The data of the serial port; `check_serialfd` is taken before select and always set.
unfoldable pub from_device : Settings → Round → Connection → Option Connection
from_device conf r c =
    if conf.raw_flag
    then (raw_data_to_tcp_socket r.from_serial r.on_socket >>= λ (e, out).
        some (record c { error = e; to_socket = c.to_socket ++ out }))
    else (read_serial r.from_serial conf.noquote c.serial_to_socket c.globals.linestate
        >>= λ (e, b, linestate). some (
            pass_on r (record c {
              error = e;
              serial_to_socket = b;
              globals = record c.globals { linestate = linestate };
            })))

-- The `default` of the switch.
unfoldable pub serve : Outside → Settings → Round → Bool → Connection → Option Connection
unfolding from_client from_device
serve os conf r true c =
    from_client os conf r c >>= λ d. if d.error == 0 then from_device conf r d else some d
serve os conf r false c = from_device conf r c

-- The switch on what select says.
unfoldable pub react : Outside → Settings → Round → Select → Connection → Option Connection
unfolding serve
react os conf r select_error c = some (record c { idle_cnt = c.idle_cnt + r.elapsed })
react os conf r select_timeout c = some (record c { idle_cnt = c.idle_cnt + r.elapsed })
react os conf r (select_ready readable) c = serve os conf r readable (record c { idle_cnt = 0 })

-- `break_signaled` and `signo_child` are globals of two files.
abbrev pub arrived : Option ℕ → Globals → Globals
arrived none g = g
arrived (some signal) g = child_signal_received signal g

unfoldable pub handle_signals : Connection → Fate Connection
handle_signals c =
    and_then
      (child_pending_signal_handle (record c.globals { break_signaled = c.session.break_signaled }))
      λ g.
        runs (record c {
          globals = g;
          session = record c.session { break_signaled = g.break_signaled };
        })

-- `continue` on an error passes the signals over.
unfoldable pub end_round : Round → Connection → Fate Connection
unfolding handle_signals
end_round r c =
    let d = record c { globals = arrived r.signal c.globals } in
    if c.error == 0 then handle_signals d else runs d

unfoldable pub round : Outside → Settings → Round → Connection → Option (Fate Connection)
unfolding check_idle react end_round
round os conf r c = do
  checked ← check_idle os conf c
  served ← react os conf r r.select checked
  some (end_round r served)

-- The condition of the loop.
abbrev pub goes_on : Connection → Bool
goes_on c = c.session.client_logged_in && not c.idle && c.error == 0

-- How far the rounds lead: into another round, out of the loop, to the end of the process, to a fault.
pub data Progress : Type 0 where
  waiting : Connection → Progress
  finished : Connection → Progress
  exited : ℕ → Progress
  faulted : Progress

-- behind a round
unfoldable pub next : (Connection → Progress) → Option (Fate Connection) → Progress
next loop none = faulted
next loop (some (ends status)) = exited status
next loop (some (runs c)) = loop c

unfoldable pub run : Outside → Settings → List Round → Connection → Progress
unfolding next
run os conf [] c = if goes_on c then waiting c else finished c
run os conf (r ∷ rs) c = if goes_on c then next (run os conf rs) (round os conf r c) else finished c

-- `serial_ip_communication_process` behind its loop: a signal that is pending, then the result 0.
unfoldable pub after_loop : Progress → Progress
unfolding handle_signals
after_loop (finished c) = elim (handle_signals c) [
  | ends status ↦ exited status
  | runs d ↦ finished d
]
after_loop other = other
