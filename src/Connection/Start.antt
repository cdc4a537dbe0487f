-- ===== src/Connection/Start.antt =====
-- serial_ip_communication_process as a whole: the buffers, the first options, the loop and what is
-- behind it.
use serial_ip.Base.{
  ℕ, ◌+◌, ◌<◌, ◌≤◌, Bool, true, false, Option, none, some, List, [], ◌∷◌, ◌++◌, ◌≡◌, refl, ◌∙◌,
  arith, ap, ◌>>=◌, if◌then◌else◌, ltb,
}
use serial_ip.Base.Integer.{ℤ, pos}
use serial_ip.Base.Text.{codes}
use serial_ip.Buffer.{Buffer, bfmalloc, bfinit}
use serial_ip.Connection.{
  Connection, Settings, Round, Progress, waiting, finished, faulted, run, after_loop,
  handle_signals, idle_message,
}
use serial_ip.Connection.Idle.{AllQuiet, IsQuiet, IsLive, seconds, idled, run-quiet_lem, synced}
use serial_ip.Signals.{Globals, child_pending_signal_handle, child_action}
use serial_ip.Telnet.Codes.{
  iac, will, do_, telopt_binary, telopt_echo, telopt_sga, telopt_logout, telopt_com_port_option,
}
use serial_ip.Telnet.Negotiation.{telnet_init, telnet_option_was_sent}
use serial_ip.Telnet.Negotiation.Start.{telnet_init-stream}
use serial_ip.Telnet.Negotiation.Stream.{IsBounded, HasRoom, Grown-HasRoom, stream}
use serial_ip.Telnet.Session.{Session, Outside}

-- SIZE_BUFFER
abbrev pub size_buffer : ℤ
size_buffer = pos 4096

-- The first options, outside raw mode.
unfoldable pub start_session : Outside → Bool → Session → Option Session
unfolding telnet_init
start_session os true s = some s
start_session os false s = telnet_init os s >>= λ (ret, t). some t

-- The variables before the loop.
abbrev pub at_start : Buffer → Buffer → Globals → Session → Connection
at_start socket_to_serial serial_to_socket g s = record {
  socket_to_serial = socket_to_serial;
  serial_to_socket = serial_to_socket;
  session = record s { client_logged_in = true };
  globals = record g { break_signaled = s.break_signaled };
  idle = false;
  idle_cnt = 0;
  error = 0;
  to_serial = [];
  to_socket = [];
}

-- behind `telnet_init`
unfoldable pub enter_loop :
    Outside → Settings → List Round → Globals → Buffer → Buffer → Option Session → Progress
unfolding run
enter_loop os conf rs g socket_to_serial serial_to_socket none = faulted
enter_loop os conf rs g socket_to_serial serial_to_socket (some s) =
    run os conf rs (at_start socket_to_serial serial_to_socket g s)

-- `allocated` tells of each call of bfmalloc which allocations succeed; `none` is the result 1.
unfoldable pub serial_ip_communication_process :
    Outside → Settings → ℕ → (ℕ → ℕ → Bool) → List Round → Session → Globals → Option Progress
unfolding bfmalloc start_session enter_loop after_loop
serial_ip_communication_process os conf bufsiz allocated rs s g = do
  socket_to_serial ← bfmalloc bufsiz (allocated 0) (some (codes "network")) size_buffer
  serial_to_socket ← bfmalloc bufsiz (allocated 1) (some (codes "serial")) size_buffer
  sabre_to_socket ← bfmalloc bufsiz (allocated 2) (some (codes "sabre")) size_buffer
  some (
      after_loop (
        enter_loop os conf rs g socket_to_serial serial_to_socket
          (start_session os conf.raw_flag (record s { out = sabre_to_socket }))))

-- What `telnet_init` adds to the stream.
abbrev pub greeting : List ℕ
greeting =
    iac ∷ do_ ∷ telopt_com_port_option ∷ iac ∷ will ∷ telopt_binary ∷ iac ∷ do_ ∷ telopt_binary
    ∷ iac ∷ will ∷ telopt_echo ∷ iac ∷ will ∷ telopt_sga ∷ iac ∷ do_ ∷ telopt_sga ∷ []

-- An empty buffer of 4096 bytes, cleared twice.
abbrev empty : Option (List ℕ) → Buffer
empty label = record {
  size = 4096;
  nbuffered = 0;
  eof = false;
  label = elim label [ some l ↦ l | none ↦ [] ];
  mem = λ j. if ltb j 4096 then 0 else 0;
  tailp = 4096;
  readp = 0;
  writep = 0;
}

bfmalloc-empty :
    (bufsiz : ℕ) (allocated : ℕ → Bool) (label : Option (List ℕ))
    → ((k : ℕ) → allocated k ≡ true)
    → bfmalloc bufsiz allocated label size_buffer ≡ some (empty label)
unfolding bfmalloc bfinit
bfmalloc-empty bufsiz allocated label h = rw (h 0, h 1, h 2) refl

abbrev pub fresh : Session → Session
fresh s = record s { out = empty (some (codes "sabre")) }

fresh-HasRoom : (s : Session) (n : ℕ) → n ≤ 4096 → HasRoom (fresh s) n
fresh-HasRoom s n h = record {
  valid = record {
    nonempty = omega arith;
    tail_at = refl;
    between = refl;
    inside = omega arith;
    reset = λ _. refl;
  };
  room = omega (arith, h);
}

after_loop-settled :
    (c : Connection) → c.globals.signo_child ≡ 0 → after_loop (finished c) ≡ finished (synced c)
unfolding after_loop handle_signals child_pending_signal_handle child_action
after_loop-settled c e = rw e refl

start_session-telnet_init :
    (os : Outside) (raw : Bool) (s t : Session)
    → raw ≡ false
    → telnet_init os s ≡ some (0, t)
    → start_session os raw s ≡ some t
unfolding start_session
start_session-telnet_init os raw s t cooked e = rw (cooked, e) refl

abbrev network : Buffer
network = empty (some (codes "network"))

abbrev serial : Buffer
serial = empty (some (codes "serial"))

-- With all buffers, the loop runs from the session that `telnet_init` leaves.
process_starts :
    (os : Outside) (conf : Settings) (bufsiz : ℕ) (allocated : ℕ → ℕ → Bool) (rs : List Round)
    (s t : Session) (g : Globals)
    → ((call k : ℕ) → allocated call k ≡ true)
    → start_session os conf.raw_flag (fresh s) ≡ some t
    → serial_ip_communication_process os conf bufsiz allocated rs s g
      ≡ some (after_loop (run os conf rs (at_start network serial g t)))
unfolding serial_ip_communication_process enter_loop
process_starts os conf bufsiz allocated rs s t g h e =
    rw
      (
        bfmalloc-empty bufsiz (allocated 0) (some (codes "network")) (h 0),
        bfmalloc-empty bufsiz (allocated 1) (some (codes "serial")) (h 1),
        bfmalloc-empty bufsiz (allocated 2) (some (codes "sabre")) (h 2),
        e,
      )
      refl

pub serial_ip_communication_process-quiet :
    (os : Outside) (conf : Settings) (bufsiz : ℕ) (allocated : ℕ → ℕ → Bool) (rs : List Round)
    (r last : Round) (more : List Round) (s : Session) (g : Globals)
    → ((call k : ℕ) → allocated call k ≡ true)
    → IsBounded os
    → conf.raw_flag ≡ false
    → AllQuiet rs
    → IsQuiet r
    → IsQuiet last
    → g.signo_child ≡ 0
    → s.sent ≡ []
    → seconds rs < conf.idletimer
    → conf.idletimer ≤ seconds rs + r.elapsed
    → (b d : Connection) × (serial_ip_communication_process os conf bufsiz allocated
          (rs ++ r ∷ [])
          s
          g
        ≡ some (waiting b))
      × (stream b.session ≡ greeting)
      × (serial_ip_communication_process os conf bufsiz allocated (rs ++ r ∷ last ∷ more) s g
          ≡ some (finished d))
      × (stream d.session ≡ greeting ++ (idle_message ++ iac ∷ do_ ∷ telopt_logout ∷ []))
      × (d.to_serial ≡ [])
      × (d.to_socket ≡ [])
unfolding after_loop telnet_option_was_sent
serial_ip_communication_process-quiet os conf bufsiz allocated rs r last more s g h bounded cooked
      quiet quiet_r quiet_last settled none_sent early late =
    let (t, e, grown, unsent) =
      telnet_init-stream os (fresh s) bounded (fresh-HasRoom s 18 (omega arith)) in
    let left : HasRoom t 45 = Grown-HasRoom 45 (fresh-HasRoom s 63 (omega arith)) grown in
    let starts = start_session-telnet_init os conf.raw_flag (fresh s) t cooked e in
    let c = at_start network serial g t in
    let live : IsLive c = record {
      logged_in = refl;
      awake = refl;
      sound = refl;
      unsignaled = settled;
      room = record { valid = left.valid; room = left.room };
    } in
    let (waits, d, ends, idle, sent, device, client, calm) =
      run-quiet_lem os conf rs r last more c bounded quiet quiet_r quiet_last live
        (omega (arith, early)) (omega (arith, late)) in
    (
      idled c (0 + seconds rs + r.elapsed),
      synced d,
      process_starts os conf bufsiz allocated (rs ++ r ∷ []) s t g h starts
          ∙ ap (λ p. some (after_loop p)) waits,
      rw (grown.grew, none_sent) refl,
      process_starts os conf bufsiz allocated (rs ++ r ∷ last ∷ more) s t g h starts
          ∙ ap (λ p. some (after_loop p)) ends
          ∙ ap some (after_loop-settled d calm),
      sent ∙ rw (cooked, unsent, grown.grew, none_sent) refl,
      device,
      client,
    )
