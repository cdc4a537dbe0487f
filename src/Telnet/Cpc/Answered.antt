-- ===== src/Telnet/Cpc/Answered.antt =====
-- A client's SET-PARITY, SET-STOPSIZE and SET-BAUDRATE, from the option string to the answer.
use serial_ip.Base.{
  ℕ, ◌+◌, ◌*◌, ◌^◌, ◌/◌, ◌%◌, ◌≤◌, ◌<◌, false, some, List, [], ◌∷◌, ◌≡◌, ◌≢◌, refl, ◌∙◌, ◌==◌,
  arith, if◌then◌else◌,
}
use serial_ip.Base.Integer.{ℤ}
use serial_ip.Serial.Line.{
  Line, Driver, ask_line, change_line, tcgetattr, tcsetattr, set_baudrate, set_parity, set_stopsize,
}
use serial_ip.Serial.Line.Replies.{Answers, set_parity-get_parity}
use serial_ip.Serial.Speed.{valid_serial_speed, valid_serial_speed_exact}
use serial_ip.Serial.Termios.{baudrate_flags, get_baudrate, get_parity, get_stopsize}
use serial_ip.Telnet.Codes.{iac, sb, se, telopt_com_port_option}
use serial_ip.Telnet.Cpc.{
  cpc_optstr, cpc_command, command_value, process_telnet_cpc_suboption, dispatch, one_byte, htonl,
  respond_telnet_cpc_baudrate_subopt, respond_telnet_cpc_parity_subopt,
  respond_telnet_cpc_stopsize_subopt,
}
use serial_ip.Telnet.Cpc.Frame.{cpc_command-frame}
use serial_ip.Telnet.Cpc.Replies.{HasCpcRoom, respond_line-Reports}
use serial_ip.Telnet.Escaping.Doubled.{doubled}
use serial_ip.Telnet.Negotiation.Stream.{IsBounded, Grown}
use serial_ip.Telnet.Session.{Session, Outside}

-- A suboption with one small byte, as it is read and as it is sent.
parsed :
    (code value : ℕ) (tail : List ℕ)
    → value ≤ 8
    → cpc_command (code ∷ value ∷ iac ∷ se ∷ tail) ≡ some (some (code, value ∷ []))
parsed code value tail h =
    let plain : value == iac ≡ false = ground arith in
    let alone : doubled (value ∷ []) ≡ value ∷ [] = rw plain refl in
    rw alone at
      (cpc_command-frame code (value ∷ []) tail (ground arith, tt) (rw alone (omega arith)))

sent :
    (code value : ℕ)
    → value ≤ 8
    → cpc_optstr code (value ∷ [])
      ≡ iac ∷ sb ∷ telopt_com_port_option ∷ code ∷ value ∷ iac ∷ se ∷ []
unfolding cpc_optstr
sent code value h = let plain : value == iac ≡ false = ground arith in rw plain refl

parity_back :
    (d : Driver) (l : Line) (value : ℕ)
    → Answers d
    → 1 ≤ value
    → value ≤ 3
    → (ask_line d get_parity (set_parity d value l).1).0 ≡ value
parity_back d l value answers low high = (set_parity-get_parity d l value answers).1 ∙ ground arith

-- On a device that answers and with room for a suboption, the client's SET-PARITY with none (1),
-- odd (2) or even (3), whatever follows its SE, is answered by the server's SET-PARITY with the
-- same value.
pub process_telnet_cpc_suboption-parity :
    (os : Outside) (value : ℕ) (tail : List ℕ) (s : Session)
    → IsBounded os
    → Answers os.driver
    → 1 ≤ value
    → value ≤ 3
    → HasCpcRoom s
    → (ret : ℤ) × (s' : Session) × (process_telnet_cpc_suboption os (3 ∷ value ∷ iac ∷ se ∷ tail) s
        ≡ some (ret, s'))
      × Grown s (iac ∷ sb ∷ telopt_com_port_option ∷ 103 ∷ value ∷ iac ∷ se ∷ []) s'
unfolding process_telnet_cpc_suboption dispatch respond_telnet_cpc_parity_subopt
process_telnet_cpc_suboption-parity os value tail s bounded answers low high r =
    let given : value == 0 ≡ false = ground arith in
    let (ret, s', e, g, l) =
      respond_line-Reports os bounded 103 set_parity get_parity one_byte value s r in
    rw (parsed 3 value tail (omega arith)) (
      ret,
      s',
      e,
      rw (given, parity_back os.driver s.line value answers low high, sent 103 value (omega arith))
          at g,
    )

-- The number of stop bits that the device has behind a request for `value`.
abbrev pub stop_bits : ℕ → Line → ℕ
stop_bits value l = if value == 1 then 1 else (if l.flags.cstopb then 2 else 1)

stopsize_back :
    (d : Driver) (l : Line) (value : ℕ)
    → Answers d
    → 1 ≤ value
    → value ≤ 3
    → (ask_line d get_stopsize (set_stopsize d value l).1).0 ≡ stop_bits value l
unfolding set_stopsize ask_line get_stopsize
stopsize_back d l value a low high =
    ground (arith, a.0 l.ioctls, a.1 (l.ioctls + 1), a.0 (l.ioctls + 1 + 1))

small : (value : ℕ) (l : Line) → stop_bits value l ≤ 8
small value l = ground arith

-- On a device that answers and with room for a suboption, the client's SET-STOPSIZE with 1, 2 or
-- 3, whatever follows its SE, is answered by the server's SET-STOPSIZE: with 1 for 1, and
-- otherwise with the number of stop bits that the device had before.
pub process_telnet_cpc_suboption-stopsize :
    (os : Outside) (value : ℕ) (tail : List ℕ) (s : Session)
    → IsBounded os
    → Answers os.driver
    → 1 ≤ value
    → value ≤ 3
    → HasCpcRoom s
    → (ret : ℤ) × (s' : Session) × (process_telnet_cpc_suboption os (4 ∷ value ∷ iac ∷ se ∷ tail) s
        ≡ some (ret, s'))
      × Grown s
          (iac ∷ sb ∷ telopt_com_port_option ∷ 104 ∷ stop_bits value s.line ∷ iac ∷ se ∷ [])
          s'
unfolding process_telnet_cpc_suboption dispatch respond_telnet_cpc_stopsize_subopt
process_telnet_cpc_suboption-stopsize os value tail s bounded answers low high r =
    let given : value == 0 ≡ false = ground arith in
    let (ret, s', e, g, l) =
      respond_line-Reports os bounded 104 set_stopsize get_stopsize one_byte value s r in
    rw (parsed 4 value tail (omega arith)) (
      ret,
      s',
      e,
      rw
          (
            given,
            stopsize_back os.driver s.line value answers low high,
            sent 104 (stop_bits value s.line) (small value s.line),
          )
          at g,
    )

-- A byte that stands for itself in a suboption.
pub record IsPlain (c : ℕ) : Type 0 where
  pub byte : c < 256
  pub not_iac : c ≢ iac
  pub not_se : c ≢ se

plain_is : (c : ℕ) → IsPlain c → c == iac ≡ false
plain_is c h = ground (arith, h.not_iac)

baudrate_back :
    (d : Driver) (l : Line) (value : ℕ)
    → Answers d
    → valid_serial_speed value ≡ 1
    → (ask_line d get_baudrate (set_baudrate d value l).1).0 ≡ value
unfolding set_baudrate change_line tcgetattr tcsetattr baudrate_flags ask_line get_baudrate
baudrate_back d l value a valid = ground (
  arith,
  a.0 l.ioctls,
  a.1 (l.ioctls + 1),
  a.0 (l.ioctls + 1 + 1),
  valid_serial_speed_exact value valid,
)

sent_four :
    (code a b c d : ℕ)
    → a == iac ≡ false
    → b == iac ≡ false
    → c == iac ≡ false
    → d == iac ≡ false
    → cpc_optstr code (a ∷ b ∷ c ∷ d ∷ [])
      ≡ iac ∷ sb ∷ telopt_com_port_option ∷ code ∷ a ∷ b ∷ c ∷ d ∷ iac ∷ se ∷ []
unfolding cpc_optstr
sent_four code a b c d ea eb ec ed = rw (ea, eb, ec, ed) refl

-- On a device that answers and with room for a suboption, the client's SET-BAUDRATE with a speed
-- above 0 that the program supports, in four bytes, the first the highest and none of them IAC or
-- SE, whatever follows its SE, is answered by the server's SET-BAUDRATE with the same four bytes.
pub process_telnet_cpc_suboption-baudrate :
    (os : Outside) (a b c d : ℕ) (tail : List ℕ) (s : Session)
    → IsBounded os
    → Answers os.driver
    → IsPlain a
    → IsPlain b
    → IsPlain c
    → IsPlain d
    → let value = a * 2 ^ 24 + b * 2 ^ 16 + c * 2 ^ 8 + d in
      0 < value
      → valid_serial_speed value ≡ 1
      → HasCpcRoom s
      → (ret : ℤ) × (s' : Session) × (process_telnet_cpc_suboption os
            (1 ∷ a ∷ b ∷ c ∷ d ∷ iac ∷ se ∷ tail)
            s
          ≡ some (ret, s'))
        × Grown s (iac ∷ sb ∷ telopt_com_port_option ∷ 101 ∷ a ∷ b ∷ c ∷ d ∷ iac ∷ se ∷ []) s'
unfolding process_telnet_cpc_suboption dispatch respond_telnet_cpc_baudrate_subopt command_value
process_telnet_cpc_suboption-baudrate os a b c d tail s bounded answers pa pb pc pd positive valid
      r =
    let value = a * 2 ^ 24 + b * 2 ^ 16 + c * 2 ^ 8 + d in
    let content = a ∷ b ∷ c ∷ d ∷ [] in
    let ea = plain_is a pa in
    let eb = plain_is b pb in
    let ec = plain_is c pc in
    let ed = plain_is d pd in
    let alone : doubled content ≡ content = rw (ea, eb, ec, ed) refl in
    let read : cpc_command (1 ∷ a ∷ b ∷ c ∷ d ∷ iac ∷ se ∷ tail) ≡ some (some (1, content)) =
      rw alone at (
        cpc_command-frame 1 content tail (pa.not_se, (pb.not_se, (pc.not_se, (pd.not_se, tt))))
          (rw alone (omega arith))) in
    let first : value / 2 ^ 24 % 256 ≡ a = omega (arith, pa.byte, pb.byte, pc.byte, pd.byte) in
    let second : value / 2 ^ 16 % 256 ≡ b = omega (arith, pa.byte, pb.byte, pc.byte, pd.byte) in
    let third : value / 2 ^ 8 % 256 ≡ c = omega (arith, pa.byte, pb.byte, pc.byte, pd.byte) in
    let fourth : value % 256 ≡ d = omega (arith, pa.byte, pb.byte, pc.byte, pd.byte) in
    let bytes : htonl value ≡ content = rw (first, second, third, fourth) refl in
    let reply : cpc_optstr 101 content
        ≡ iac ∷ sb ∷ telopt_com_port_option ∷ 101 ∷ a ∷ b ∷ c ∷ d ∷ iac ∷ se ∷ [] =
      sent_four 101 a b c d ea eb ec ed in
    let given : value == 0 ≡ false = ground arith in
    let (ret, s', e, g, l) =
      respond_line-Reports os bounded 101 set_baudrate get_baudrate htonl value s r in
    rw read (
      ret,
      s',
      e,
      rw (given, baudrate_back os.driver s.line value answers valid, bytes, reply) at g,
    )
