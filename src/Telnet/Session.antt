-- ===== src/Telnet/Session.antt =====
-- The globals of telnet.c, the buffer `sabre_to_socket_buf`, and what the session has outside: the
-- socket that the process writes to, and the serial device. Each function takes and returns them.
use serial_ip.Base.{
  ℕ, ◌+◌, Bool, false, Option, none, some, List, ◌++◌, ◌==◌, leb, if◌then◌else◌, ◌>>=◌, length,
}
use serial_ip.Base.Integer.{ℤ, pos, negsuc}
use serial_ip.Base.Text.{Text}
use serial_ip.Buffer.{Buffer, bfstrncat, WriteAnswer, write_from_buffer_to_fd}
use serial_ip.Serial.Line.{Line, Driver}

-- `struct telnet_options_t`: its one-bit fields are read as tests only.
pub record Options : Type 0 where
  pub sent_will : Bool
  pub sent_do : Bool
  pub sent_wont : Bool
  pub sent_dont : Bool
  pub server : Bool
  pub client : Bool

-- `tnmode[]`
pub data Mode : Type 0 where
  ascii binary : Mode

-- `session_state`
pub data SessionState : Type 0 where
  suspend resume : SessionState

-- `struct serial_info_t`, as far as the signature names it
pub record Port : Type 0 where
  pub device : Option Text
  pub description : Option Text

pub record Session : Type 0 where
  pub tnoptions : ℕ → Options
  pub client_mode : Mode
  pub server_mode : Mode
  pub session_state : SessionState
  pub break_signaled : Bool
  pub ask_client_signature : Bool
  pub client_logged_in : Bool
  pub out : Buffer
  -- the bytes that the socket has taken, and the writes made to it
  pub sent : List ℕ
  pub writes : ℕ
  pub line : Line

-- What the program finds outside itself: the answer of write(2) to the k-th write on the socket, the
-- answers of the serial driver, and whether malloc(3) succeeds at the k-th write; with the program's
-- name and version and the port in use (`si`).
pub record Outside : Type 0 where
  pub write : ℕ → List ℕ → WriteAnswer
  pub driver : Driver
  pub allocates : ℕ → Bool
  pub program_name : Text
  pub version : Text
  pub si : Option Port

-- `write_from_buffer_to_fd(sockfd, sabre_to_socket_buf)`
unfoldable pub write_out : Outside → Session → ℤ × Session
write_out os s =
    let (ret, out, bytes) = write_from_buffer_to_fd (os.write s.writes) s.out in
    (ret, record s { out = out; sent = s.sent ++ bytes; writes = s.writes + 1 })

abbrev pub set_option : Session → ℕ → Options → Session
set_option s option o = record s { tnoptions = λ k. if k == option then o else s.tnoptions k }

-- `ret >= size`
abbrev pub reaches : ℤ → ℕ → Bool
reaches (pos n) size = leb size n
reaches (negsuc n) size = false

-- The write behind an append, and whether all of `size` bytes went out; a suspended session writes
-- nothing.
unfoldable pub written : Outside → ℕ → SessionState → Session → Option Bool × Session
written os size suspend s = (none, s)
written os size resume s = let (ret, s') = write_out os s in (some (reaches ret size), s')

-- Append a string to the buffer and, in a running session, write the buffer to the socket.
unfoldable pub append_and_write : Outside → List ℕ → Session → Option (Option Bool × Session)
append_and_write os optstr s = bfstrncat s.out optstr (length optstr) >>= λ (len, out).
    some (written os (length optstr) s.session_state (record s { out = out }))
