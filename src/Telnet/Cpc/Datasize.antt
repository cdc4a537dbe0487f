-- ===== src/Telnet/Cpc/Datasize.antt =====
-- A client's SET-DATASIZE, from the option string to the answer.
use serial_ip.Base.{ℕ, ◌≤◌, false, some, List, [], ◌∷◌, ◌≡◌, refl, ◌==◌, arith}
use serial_ip.Base.Integer.{ℤ}
use serial_ip.Serial.Line.{set_datasize}
use serial_ip.Serial.Line.Replies.{Answers, set_datasize-get_datasize}
use serial_ip.Serial.Termios.{get_datasize}
use serial_ip.Telnet.Codes.{iac, sb, se, telopt_com_port_option}
use serial_ip.Telnet.Cpc.{
  cpc_optstr, cpc_command, process_telnet_cpc_suboption, respond_telnet_cpc_datasize_subopt,
  dispatch, one_byte,
}
use serial_ip.Telnet.Cpc.Frame.{cpc_command-frame}
use serial_ip.Telnet.Cpc.Replies.{HasCpcRoom, respond_line-Reports}
use serial_ip.Telnet.Escaping.Doubled.{doubled}
use serial_ip.Telnet.Negotiation.Stream.{IsBounded, Grown}
use serial_ip.Telnet.Session.{Session, Outside}

sent :
    (value : ℕ)
    → value ≤ 8
    → cpc_optstr 102 (value ∷ []) ≡ iac ∷ sb ∷ telopt_com_port_option ∷ 102 ∷ value ∷ iac ∷ se ∷ []
unfolding cpc_optstr
sent value h = let plain : value == iac ≡ false = ground arith in rw plain refl

-- On a device that answers and with room for a suboption, the client's SET-DATASIZE with a size
-- from 5 to 8, whatever follows its SE, is answered by the server's SET-DATASIZE with the same
-- size.
pub process_telnet_cpc_suboption-datasize :
    (os : Outside) (value : ℕ) (tail : List ℕ) (s : Session)
    → IsBounded os
    → Answers os.driver
    → 5 ≤ value
    → value ≤ 8
    → HasCpcRoom s
    → (ret : ℤ) × (s' : Session) × (process_telnet_cpc_suboption os (2 ∷ value ∷ iac ∷ se ∷ tail) s
        ≡ some (ret, s'))
      × Grown s (iac ∷ sb ∷ telopt_com_port_option ∷ 102 ∷ value ∷ iac ∷ se ∷ []) s'
unfolding process_telnet_cpc_suboption dispatch respond_telnet_cpc_datasize_subopt
process_telnet_cpc_suboption-datasize os value tail s bounded answers low high r =
    let plain : value == iac ≡ false = ground arith in
    let given : value == 0 ≡ false = ground arith in
    let alone : doubled (value ∷ []) ≡ value ∷ [] = rw plain refl in
    let parsed : cpc_command (2 ∷ value ∷ iac ∷ se ∷ tail) ≡ some (some (2, value ∷ [])) =
      rw alone at
        (cpc_command-frame 2 (value ∷ []) tail (ground arith, tt) (rw alone (omega arith))) in
    let (done, back, rest) = set_datasize-get_datasize os.driver s.line value answers low high in
    let (ret, s', e, g, l) =
      respond_line-Reports os bounded 102 set_datasize get_datasize one_byte value s r in
    let reply = sent value high in rw parsed (ret, s', e, rw (given, back, reply) at g)
