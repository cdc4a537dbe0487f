-- ===== src/Telnet/Cpc.antt =====
-- The Com Port Control suboptions of telnet.c: sending one, and acting on one that the client sent.
pub mod Frame
pub mod Replies
pub mod Datasize
pub mod Answered
use serial_ip.Base.{
  ℕ, zero, suc, ◌+◌, ◌*◌, ◌/◌, ◌%◌, ◌^◌, Bool, true, false, ◌||◌, Option, none, some, List, [], ◌∷◌,
  ◌++◌, ◌==◌, ltb, leb, if◌then◌else◌, ◌>>=◌, length, take, get_or, min,
}
use serial_ip.Base.Integer.{ℤ, pos, negsuc, ◌+ℤ◌}
use serial_ip.Base.Text.{Text, codes}
use serial_ip.Serial.Line.{
  Line, Driver, ask_line, set_stopsize, set_parity, set_datasize, set_baudrate,
}
use serial_ip.Serial.Termios.{Settings, get_stopsize, get_parity, get_datasize, get_baudrate}
use serial_ip.Telnet.Codes.{iac, sb, se, telopt_com_port_option, max_telnet_cpc_command_len}
use serial_ip.Telnet.Session.{Session, Outside, Port, append_and_write}

-- The loop that copies the content into `optstr`, doubling IAC, with `size` bytes there already. It
-- stops as soon as more than MAX_TELNET_CPC_COMMAND_LEN are.
unfoldable pub escape_content : ℕ → List ℕ → List ℕ
escape_content size [] = []
escape_content size (c ∷ cs) =
    let plain =
      c
      ∷ (if ltb max_telnet_cpc_command_len (size + 1) then [] else escape_content (size + 1) cs) in
    let second =
      c
      ∷ (if ltb max_telnet_cpc_command_len (size + 2) then [] else escape_content (size + 2) cs) in
    if c == iac
    then iac ∷ (if ltb max_telnet_cpc_command_len (size + 1) then [] else second)
    else plain

-- `cmdlen` after the bounds check
abbrev pub trimmed : List ℕ → List ℕ
trimmed content =
    if leb max_telnet_cpc_command_len (length content) then take 255 content else content

-- The bytes of `optstr` that are sent.
unfoldable pub cpc_optstr : ℕ → List ℕ → List ℕ
unfolding escape_content
cpc_optstr suboptcode content =
    (iac ∷ sb ∷ telopt_com_port_option ∷ suboptcode ∷ [])
    ++ (escape_content 4 (trimmed content) ++ iac ∷ se ∷ [])

-- 1 if the write fell short, 0 otherwise.
abbrev pub shortfall : Option Bool → ℤ
shortfall none = pos 0
shortfall (some true) = pos 0
shortfall (some false) = pos 1

-- Big-endian bytes, as `htonl` lays them out; the value is cut to 32 bits.
abbrev pub htonl : ℕ → List ℕ
htonl v = v / 2 ^ 24 % 256 ∷ v / 2 ^ 16 % 256 ∷ v / 2 ^ 8 % 256 ∷ v % 256 ∷ []

-- The value that one, two or four bytes stand for; any other length gives 0.
unfoldable pub command_value : List ℕ → ℕ
command_value (a ∷ []) = a
command_value (a ∷ b ∷ []) = a * 256 + b
command_value (a ∷ b ∷ c ∷ d ∷ []) = a * 2 ^ 24 + b * 2 ^ 16 + c * 2 ^ 8 + d
command_value _ = 0

abbrev comma_text : Option Text → Text
comma_text none = []
comma_text (some t) = codes ", " ++ t

abbrev port_text : Option Port → Text
port_text none = []
port_text (some p) = comma_text p.device ++ comma_text p.description

-- `*command == '\0'`; the command is NUL-terminated.
abbrev pub is_empty : List ℕ → Bool
is_empty [] = true
is_empty (c ∷ cs) = c == 0

abbrev pub one_byte : ℕ → List ℕ
one_byte v = v ∷ []

module _ (os : Outside) where
  unfoldable pub send_telnet_cpc_suboption : ℕ → List ℕ → Session → Option (ℤ × Session)
  send_telnet_cpc_suboption suboptcode content s =
      append_and_write os (cpc_optstr suboptcode content) s >>= λ (sent, s').
      some (shortfall sent, s')

  -- What `snprintf` writes; the allocated length is exactly its own and the NUL's.
  unfoldable pub signature_text : Text
  signature_text = os.program_name ++ (codes " " ++ (os.version ++ port_text os.si))

  -- behind the signature: ask for the client's, once, if the signature went out
  unfoldable pub ask_signature : ℤ → Bool → Session → Option (ℤ × Session)
  unfolding send_telnet_cpc_suboption
  ask_signature (pos zero) true s = send_telnet_cpc_suboption 0 [] s >>= λ (ret, s').
      some (ret, record s' { ask_client_signature = false })
  ask_signature ret asked s = some (ret, s)

  unfoldable pub respond_telnet_cpc_signature_subopt : List ℕ → Session → Option (ℤ × Session)
  unfolding ask_signature signature_text
  respond_telnet_cpc_signature_subopt command s =
      if is_empty command
      then (send_telnet_cpc_suboption 100
            (if os.allocates s.writes then signature_text else codes "serial_ip") s
          >>= λ (ret, s'). ask_signature ret s'.ask_client_signature s')
      else some (pos 0, s)

  -- Read a setting from the device, and send it.
  unfoldable pub report_line : ℕ → (Settings → ℕ) → (ℕ → List ℕ) → Session → Option (ℤ × Session)
  report_line suboptcode get bytes s =
      let (v, l) = ask_line os.driver get s.line in
      send_telnet_cpc_suboption suboptcode (bytes v) (record s { line = l })

  -- The frame of the four responders: `set` is the setter, `get` the getter.
  unfoldable pub respond_line :
      ℕ
      → (Driver → ℕ → Line → ℤ × Line)
      → (Settings → ℕ)
      → (ℕ → List ℕ)
      → ℕ
      → Session
      → Option (ℤ × Session)
  unfolding report_line
  respond_line suboptcode set get bytes value s =
      if value == 0
      then report_line suboptcode get bytes s
      else (let (ret, l) = set os.driver value s.line in
          report_line suboptcode get bytes (record s { line = l }) >>= λ (ret', s').
          some (ret +ℤ ret', s'))

  unfoldable pub respond_telnet_cpc_baudrate_subopt : ℕ → Session → Option (ℤ × Session)
  unfolding respond_line
  respond_telnet_cpc_baudrate_subopt = respond_line 101 set_baudrate get_baudrate htonl

  unfoldable pub respond_telnet_cpc_datasize_subopt : ℕ → Session → Option (ℤ × Session)
  unfolding respond_line
  respond_telnet_cpc_datasize_subopt = respond_line 102 set_datasize get_datasize one_byte

  unfoldable pub respond_telnet_cpc_parity_subopt : ℕ → Session → Option (ℤ × Session)
  unfolding respond_line
  respond_telnet_cpc_parity_subopt = respond_line 103 set_parity get_parity one_byte

  unfoldable pub respond_telnet_cpc_stopsize_subopt : ℕ → Session → Option (ℤ × Session)
  unfolding respond_line
  respond_telnet_cpc_stopsize_subopt = respond_line 104 set_stopsize get_stopsize one_byte

  -- the switch on the suboption code
  unfoldable pub dispatch : ℕ → List ℕ → Session → Option (ℤ × Session)
  unfolding command_value
  dispatch suboptcode command s =
      let value = command_value command in
      if suboptcode == 0 || suboptcode == 100
      then respond_telnet_cpc_signature_subopt command s
      else if suboptcode == 1 || suboptcode == 101
      then respond_telnet_cpc_baudrate_subopt value s
      else if suboptcode == 2 || suboptcode == 102
      then respond_telnet_cpc_datasize_subopt value s
      else if suboptcode == 3 || suboptcode == 103
      then respond_telnet_cpc_parity_subopt value s
      else if suboptcode == 4 || suboptcode == 104
      then respond_telnet_cpc_stopsize_subopt value s
      else some (pos 0, s)

-- `mystrchr` over the bytes of an option string: the index found.
unfoldable pub find_byte : ℕ → List ℕ → Option ℕ
find_byte ch [] = none
find_byte ch (x ∷ xs) =
    if x == ch then some 0 else elim (find_byte ch xs) [ none ↦ none | some k ↦ some (suc k) ]

-- The loop that takes the second of two IACs out of the command, in place.
unfoldable pub unescape : List ℕ → List ℕ
unescape [] = []
unescape (x ∷ []) = x ∷ []
unescape (x ∷ y ∷ ys) =
    let pair = x ∷ unescape ys in
    let single = x ∷ unescape (y ∷ ys) in
    if x == iac then (if y == iac then pair else single) else single

-- What becomes of an option string: it is refused, or it is a suboption code and a command.
-- `none` is the write of `command[-1]` when the IAC before SE is the suboption code itself.
unfoldable pub cut_command : ℕ → List ℕ → ℕ → Option (Option (ℕ × List ℕ))
unfolding unescape
cut_command suboptcode rest zero = if suboptcode == iac then none else some none
cut_command suboptcode rest (suc len) =
    if get_or rest len 0 == iac
    then some (some (suboptcode, unescape (take (min len 255) rest)))
    else some none

unfoldable pub find_end : ℕ → List ℕ → Option ℕ → Option (Option (ℕ × List ℕ))
unfolding cut_command
find_end suboptcode rest none = some none
find_end suboptcode rest (some k) = cut_command suboptcode rest k

unfoldable pub cpc_command : List ℕ → Option (Option (ℕ × List ℕ))
unfolding find_end find_byte
cpc_command [] = some none
cpc_command (suboptcode ∷ rest) =
    if ltb (length (suboptcode ∷ rest)) 3
    then some none
    else find_end suboptcode rest (find_byte se rest)

unfoldable pub process_telnet_cpc_suboption : Outside → List ℕ → Session → Option (ℤ × Session)
process_telnet_cpc_suboption os optstr s = cpc_command optstr >>= λ parsed. elim parsed [
  | none ↦ some (pos 1, s)
  | some (suboptcode, command) ↦ dispatch os suboptcode command s
]
