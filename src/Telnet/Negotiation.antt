-- ===== src/Telnet/Negotiation.antt =====
-- The option negotiation of telnet.c.
pub mod Stream
pub mod Negotiated
pub mod Replies
pub mod Answers
pub mod Supported
pub mod Start
pub mod Modes
use serial_ip.Base.{
  ℕ, zero, suc, ◌+◌, Bool, true, false, not, ◌||◌, Option, none, some, List, [], ◌∷◌, ◌==◌,
  if◌then◌else◌, ◌>>=◌,
}
use serial_ip.Telnet.Codes.{
  iac, will, do_, wont, dont, telopt_binary, telopt_echo, telopt_sga, telopt_logout,
  telopt_com_port_option,
}
use serial_ip.Telnet.Session.{
  Options, Mode, ascii, binary, Session, Outside, set_option, append_and_write, resume,
}

abbrev pub enable_telnet_client_option : ℕ → Session → Session
enable_telnet_client_option option s =
    set_option s option (record (s.tnoptions option) { client = true })

abbrev pub disable_telnet_client_option : ℕ → Session → Session
disable_telnet_client_option option s =
    set_option s option (record (s.tnoptions option) { client = false })

abbrev pub enable_telnet_server_option : ℕ → Session → Session
enable_telnet_server_option option s =
    set_option s option (record (s.tnoptions option) { server = true })

abbrev pub disable_telnet_server_option : ℕ → Session → Session
disable_telnet_server_option option s =
    set_option s option (record (s.tnoptions option) { server = false })

abbrev pub telnet_client_option_is_enabled : ℕ → Session → Bool
telnet_client_option_is_enabled option s = (s.tnoptions option).client

abbrev pub telnet_client_option_is_disabled : ℕ → Session → Bool
telnet_client_option_is_disabled option s = not (telnet_client_option_is_enabled option s)

abbrev pub telnet_server_option_is_enabled : ℕ → Session → Bool
telnet_server_option_is_enabled option s = (s.tnoptions option).server

abbrev pub telnet_server_option_is_disabled : ℕ → Session → Bool
telnet_server_option_is_disabled option s = not (telnet_server_option_is_enabled option s)

unfoldable pub mark_telnet_option_as_sent : ℕ → ℕ → Session → Session
mark_telnet_option_as_sent optcode option s =
    let o = s.tnoptions option in
    if optcode == will
    then set_option s option (record o { sent_will = true })
    else if optcode == do_
    then set_option s option (record o { sent_do = true })
    else if optcode == wont
    then set_option s option (record o { sent_wont = true })
    else if optcode == dont
    then set_option s option (record o { sent_dont = true })
    else s

unfoldable pub telnet_option_was_sent : ℕ → ℕ → Session → Bool
telnet_option_was_sent optcode option s =
    let o = s.tnoptions option in
    if optcode == will
    then o.sent_will
    else if optcode == do_
    then o.sent_do
    else if optcode == wont
    then o.sent_wont
    else if optcode == dont
    then o.sent_dont
    else false

-- behind the write: mark the option if all of it went out; a suspended session returns 0
unfoldable pub after_option : ℕ → ℕ → Option Bool → Session → ℕ × Session
unfolding mark_telnet_option_as_sent
after_option optcode option none s = (0, s)
after_option optcode option (some true) s = (0, mark_telnet_option_as_sent optcode option s)
after_option optcode option (some false) s = (1, s)

-- `answer` of the default case; it is left unset for any other code.
abbrev pub refusal : ℕ → Option ℕ
refusal optcode =
    if optcode == will || optcode == wont
    then some dont
    else if optcode == do_ || optcode == dont
    then some wont
    else none

-- All options off; the loop over the 256 entries sets them alike.
abbrev pub options_off : Options
options_off = record {
  sent_will = false;
  sent_do = false;
  sent_wont = false;
  sent_dont = false;
  server = false;
  client = false;
}

module _ (os : Outside) where
  -- Returns 0 on success, 1 on failure.
  unfoldable pub send_telnet_option : ℕ → ℕ → Session → Option (ℕ × Session)
  send_telnet_option optcode option s =
      if telnet_option_was_sent optcode option s
      then some (0, s)
      else append_and_write os (iac ∷ optcode ∷ option ∷ []) s >>= λ (sent, s').
          some (after_option optcode option sent s')

  -- The code of `send_telnet_option` once more.
  unfoldable pub send_init_telnet_option : ℕ → ℕ → Session → Option (ℕ × Session)
  send_init_telnet_option optcode option s =
      if telnet_option_was_sent optcode option s
      then some (0, s)
      else append_and_write os (iac ∷ optcode ∷ option ∷ []) s >>= λ (sent, s').
          some (after_option optcode option sent s')

  -- Send an answer and go on with what the code does to the options.
  abbrev pub answer_with : ℕ → ℕ → (Session → Session) → Session → Option (ℕ × Session)
  answer_with optcode option change s =
      send_telnet_option optcode option s >>= λ (ret, s'). some (ret, change s')

  -- `respond_telnet_binary_option` at the binary option
  unfoldable pub respond_binary : ℕ → ℕ → Session → Option (ℕ × Session)
  respond_binary optcode option s =
      if optcode == will
      then if telnet_client_option_is_disabled option s
        then answer_with do_ option
            (λ t. record (enable_telnet_client_option option t) { client_mode = binary }) s
        else some (0, s)
      else if optcode == wont
      then if telnet_client_option_is_enabled option s
        then answer_with dont option
            (λ t. record (disable_telnet_client_option option t) { client_mode = ascii }) s
        else some (0, s)
      else if optcode == do_
      then if telnet_server_option_is_disabled option s
        then answer_with will option
            (λ t. record (enable_telnet_server_option option t) { server_mode = binary }) s
        else some (0, s)
      else if optcode == dont
      then if telnet_server_option_is_enabled option s
        then answer_with wont option
            (λ t. record (disable_telnet_server_option option t) { server_mode = ascii }) s
        else some (0, s)
      else some (0, s)

  -- `respond_known_telnet_option` at another option
  unfoldable pub respond_known : ℕ → ℕ → Session → Option (ℕ × Session)
  respond_known optcode option s =
      if optcode == will
      then if telnet_client_option_is_disabled option s
        then answer_with do_ option (enable_telnet_client_option option) s
        else some (0, s)
      else if optcode == wont
      then if telnet_client_option_is_enabled option s
        then answer_with dont option (disable_telnet_client_option option) s
        else some (0, s)
      else if optcode == do_
      then if telnet_server_option_is_disabled option s
        then answer_with will option (enable_telnet_server_option option) s
        else some (0, s)
      else if optcode == dont
      then if telnet_server_option_is_enabled option s
        then answer_with wont option (disable_telnet_server_option option) s
        else some (0, s)
      else some (0, s)

  -- Each of the two hands the options of the other over to it.
  unfoldable pub respond_telnet_binary_option : ℕ → ℕ → Session → Option (ℕ × Session)
  respond_telnet_binary_option optcode option s =
      if option == telopt_binary
      then respond_binary optcode option s
      else respond_known optcode option s

  unfoldable pub respond_known_telnet_option : ℕ → ℕ → Session → Option (ℕ × Session)
  respond_known_telnet_option optcode option s =
      if option == telopt_binary
      then respond_binary optcode option s
      else respond_known optcode option s

  unfoldable pub respond_telnet_option : ℕ → ℕ → Session → Option (ℕ × Session)
  respond_telnet_option optcode option s =
      if option == telopt_com_port_option || option == telopt_echo || option == telopt_sga
      then respond_known_telnet_option optcode option s
      else if option == telopt_logout
      then (respond_known_telnet_option optcode option s >>= λ (ret, s'). some (
        ret,
        if optcode == will || optcode == do_ then record s' { client_logged_in = false } else s',
      ))
      else if option == telopt_binary
      then respond_telnet_binary_option optcode option s
      else refusal optcode >>= λ answer. send_telnet_option answer option s

  unfoldable pub telnet_init : Session → Option (ℕ × Session)
  telnet_init s =
      send_init_telnet_option do_ telopt_com_port_option (record s {
        tnoptions = λ _. options_off;
        client_mode = ascii;
        server_mode = ascii;
        session_state = resume;
        break_signaled = false;
        ask_client_signature = true;
      })
      >>= λ (_, s1). send_init_telnet_option will telopt_binary s1 >>= λ (_, s2).
          send_init_telnet_option do_ telopt_binary s2 >>= λ (_, s3).
          send_init_telnet_option will telopt_echo s3 >>= λ (_, s4).
          send_init_telnet_option will telopt_sga s4 >>= λ (_, s5).
          send_init_telnet_option do_ telopt_sga s5 >>= λ (_, s6). some (0, s6)
