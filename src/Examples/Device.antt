-- ===== src/Examples/Device.antt =====
-- The serial device and the Com Port Control option.
use serial_ip.Base.{ℕ, true, false, some, List, [], ◌∷◌, ◌++◌, ◌≡◌, refl, ◌+◌, ◌*◌, ◌^◌, arith}
use serial_ip.Base.Integer.{ℤ, pos}
use serial_ip.Examples.{
  session, world, world-IsBounded, session-HasRoom, device, device-Answers, line,
}
use serial_ip.Serial.Line.{Driver, ask_line, set_datasize}
use serial_ip.Serial.Line.Replies.{set_datasize-get_datasize}
use serial_ip.Serial.Termios.{get_datasize}
use serial_ip.Telnet.Codes.{iac, sb, se, telopt_com_port_option}
use serial_ip.Telnet.Cpc.{cpc_optstr, cpc_command, process_telnet_cpc_suboption}
use serial_ip.Telnet.Cpc.Datasize.{process_telnet_cpc_suboption-datasize}
use serial_ip.Telnet.Cpc.Frame.{cpc_command-cpc_optstr}
use serial_ip.Telnet.Cpc.Answered.{
  process_telnet_cpc_suboption-parity, process_telnet_cpc_suboption-stopsize, stop_bits, IsPlain,
  process_telnet_cpc_suboption-baudrate,
}
use serial_ip.Serial.Speed.{valid_serial_speed}
use serial_ip.Telnet.Negotiation.Stream.{Grown}
use serial_ip.Telnet.Session.{Session}

process_telnet_cpc_suboption-datasize_example :
    (ret : ℤ) × (s' : Session) × (process_telnet_cpc_suboption world (2 ∷ 7 ∷ iac ∷ se ∷ []) session
      ≡ some (ret, s'))
    × Grown session (iac ∷ sb ∷ telopt_com_port_option ∷ 102 ∷ 7 ∷ iac ∷ se ∷ []) s'
process_telnet_cpc_suboption-datasize_example =
    process_telnet_cpc_suboption-datasize world 7 [] session world-IsBounded device-Answers
      (omega arith) (omega arith) (session-HasRoom 259 (omega arith))

-- A signature that holds an IAC.
cpc_command-cpc_optstr_example :
    (rest : List ℕ) × (cpc_optstr 100 (115 ∷ 255 ∷ []) ≡ iac ∷ sb ∷ telopt_com_port_option ∷ rest)
    × (cpc_command (rest ++ []) ≡ some (some (100, 115 ∷ 255 ∷ [])))
cpc_command-cpc_optstr_example =
    cpc_command-cpc_optstr 100 (115 ∷ 255 ∷ []) []
      ((λ e. absurd (omega arith)), ((λ e. absurd (omega arith)), tt)) (omega arith)

process_telnet_cpc_suboption-parity_example :
    (ret : ℤ) × (s' : Session) × (process_telnet_cpc_suboption world (3 ∷ 2 ∷ iac ∷ se ∷ []) session
      ≡ some (ret, s'))
    × Grown session (iac ∷ sb ∷ telopt_com_port_option ∷ 103 ∷ 2 ∷ iac ∷ se ∷ []) s'
process_telnet_cpc_suboption-parity_example =
    process_telnet_cpc_suboption-parity world 2 [] session world-IsBounded device-Answers
      (omega arith) (omega arith) (session-HasRoom 259 (omega arith))

process_telnet_cpc_suboption-stopsize_example :
    (ret : ℤ) × (s' : Session) × (process_telnet_cpc_suboption world (4 ∷ 1 ∷ iac ∷ se ∷ []) session
      ≡ some (ret, s'))
    × Grown session
        (iac ∷ sb ∷ telopt_com_port_option ∷ 104 ∷ stop_bits 1 session.line ∷ iac ∷ se ∷ [])
        s'
process_telnet_cpc_suboption-stopsize_example =
    process_telnet_cpc_suboption-stopsize world 1 [] session world-IsBounded device-Answers
      (omega arith) (omega arith) (session-HasRoom 259 (omega arith))

zero-IsPlain : IsPlain 0
zero-IsPlain = record {
  byte = omega arith;
  not_iac = λ e. absurd (omega arith);
  not_se = λ e. absurd (omega arith);
}

high-IsPlain : IsPlain 37
high-IsPlain = record {
  byte = omega arith;
  not_iac = λ e. absurd (omega arith);
  not_se = λ e. absurd (omega arith);
}

low-IsPlain : IsPlain 128
low-IsPlain = record {
  byte = omega arith;
  not_iac = λ e. absurd (omega arith);
  not_se = λ e. absurd (omega arith);
}

speed_9600 : valid_serial_speed (0 * 2 ^ 24 + 0 * 2 ^ 16 + 37 * 2 ^ 8 + 128) ≡ 1
unfolding valid_serial_speed
speed_9600 = refl

-- A request for 9600 baud.
process_telnet_cpc_suboption-baudrate_example :
    (ret : ℤ) × (s' : Session) × (process_telnet_cpc_suboption world
        (1 ∷ 0 ∷ 0 ∷ 37 ∷ 128 ∷ iac ∷ se ∷ [])
        session
      ≡ some (ret, s'))
    × Grown session (iac ∷ sb ∷ telopt_com_port_option ∷ 101 ∷ 0 ∷ 0 ∷ 37 ∷ 128 ∷ iac ∷ se ∷ []) s'
process_telnet_cpc_suboption-baudrate_example =
    process_telnet_cpc_suboption-baudrate world 0 0 37 128 [] session world-IsBounded device-Answers
      zero-IsPlain zero-IsPlain high-IsPlain low-IsPlain (omega arith) speed_9600
      (session-HasRoom 259 (omega arith))

set_datasize-get_datasize_example :
    let (ret, l) = set_datasize device 7 line in
    (ret ≡ pos 0)
    × ((ask_line device get_datasize l).0 ≡ 7)
    × (l.flags ≡ record line.flags { csize = l.flags.csize })
set_datasize-get_datasize_example =
    set_datasize-get_datasize device line 7 device-Answers (omega arith) (omega arith)

-- A device that refuses new settings.
abbrev stubborn : Driver
stubborn = record { gets = λ _. true; sets = λ _. false }
