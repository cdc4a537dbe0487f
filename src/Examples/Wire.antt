-- ===== src/Examples/Wire.antt =====
-- Streams of bytes from and to a client.
use serial_ip.Base.{ℕ, some, List, [], ◌∷◌, ◌≡◌, refl, arith, ltb, if◌then◌else◌, false}
use serial_ip.Base.Integer.{pos}
use serial_ip.Buffer.{Buffer, ReadAnswer, stored, read_interrupted}
use serial_ip.Buffer.Fill.{IsBoundedRead}
use serial_ip.Buffer.Invariant.{Holds}
use serial_ip.Examples.{world-IsBounded, session-HasRoom, filled, session, world}
use serial_ip.NetworkController.{read_serial, read_socket}
use serial_ip.NetworkController.Flow.{read_serial-doubled, read_socket-decoded}
use serial_ip.Telnet.Codes.{do_, telopt_echo}
use serial_ip.Telnet.Commands.{process_telnet_options}
use serial_ip.Telnet.Commands.Decoded.{process_telnet_options-decoded}
use serial_ip.Telnet.Commands.Items.{
  Item, plain, command, escaped, proposal, short, AreItems, encoded, run,
}
use serial_ip.Telnet.Commands.RoundTrip.{process_telnet_options-escape_iac_chars}
use serial_ip.Telnet.Escaping.{escape_iac_chars}
use serial_ip.Telnet.Escaping.Doubled.{escape_iac_chars-doubled}
use serial_ip.Telnet.Negotiation.{respond_telnet_option}
use serial_ip.Telnet.Negotiation.Answers.{Gives}
use serial_ip.Telnet.Negotiation.Negotiated.{acknowledgement, Negotiated}
use serial_ip.Telnet.Negotiation.Supported.{respond_telnet_option-supported}
use serial_ip.Telnet.Session.{Session}

-- 'a', an escaped IAC, DO ECHO, a NOP and 'b'
abbrev items : List Item
items =
    plain 97
    ∷ command escaped
    ∷ command (proposal do_ telopt_echo)
    ∷ command (short 241)
    ∷ plain 98
    ∷ []

items-AreItems : AreItems items
items-AreItems = (
  (λ e. absurd (omega arith)),
  (tt, (refl, ((refl, refl, refl), ((λ e. absurd (omega arith)), tt)))),
)

-- The answer to DO ECHO.
reply :
    Gives
      (respond_telnet_option world do_ telopt_echo session)
      session
      (acknowledgement do_ telopt_echo session)
      (Negotiated do_ telopt_echo session)
reply =
    respond_telnet_option-supported world do_ telopt_echo session world-IsBounded
      (session-HasRoom 3 (omega arith)) refl

abbrev answered : Session
answered = reply.1

items-run : run world items session ≡ some answered
items-run = rw (reply.2) refl

items-Holds : Holds (filled (encoded items)) (encoded items)
items-Holds = record { valid = omega arith; bytes = refl }

process_telnet_options-decoded_example :
    (after : Buffer) × (process_telnet_options world (filled (encoded items)) session
      ≡ some (after, answered))
    × Holds after (97 ∷ 255 ∷ 98 ∷ [])
    × (after.size ≡ 512)
process_telnet_options-decoded_example =
    process_telnet_options-decoded world (filled (encoded items)) items session answered
      items-AreItems items-Holds items-run

-- The bytes that a client or a device sends.
abbrev bytes : List ℕ
bytes = 97 ∷ 255 ∷ 255 ∷ 98 ∷ []

bytes-Holds : Holds (filled bytes) bytes
bytes-Holds = record { valid = omega arith; bytes = refl }

process_telnet_options-escape_iac_chars_example :
    (sent : Buffer) × (received : Buffer) × (escape_iac_chars (filled bytes) ≡ some sent)
    × (process_telnet_options world sent session ≡ some (received, session))
    × Holds received bytes
process_telnet_options-escape_iac_chars_example =
    process_telnet_options-escape_iac_chars world (filled bytes) bytes session bytes-Holds
      (omega arith)

escape_iac_chars-doubled_example :
    (after : Buffer) × (escape_iac_chars (filled bytes) ≡ some after)
    × Holds after (97 ∷ 255 ∷ 255 ∷ 255 ∷ 255 ∷ 98 ∷ [])
    × (after.size ≡ 512)
escape_iac_chars-doubled_example =
    escape_iac_chars-doubled (filled bytes) bytes bytes-Holds (omega arith)

-- A descriptor that delivers IAC 'c', asked for two bytes or more.
abbrev delivers : ℕ → ReadAnswer
delivers n = if ltb n 2 then read_interrupted else stored (255 ∷ 99 ∷ [])

delivers-IsBoundedRead : IsBoundedRead delivers
delivers-IsBoundedRead n = ground arith

-- An escaped pair is still in the buffer: it is escaped again.
read_serial-doubled_example :
    (after : Buffer) × (read_serial delivers false (filled bytes) 0 ≡ some (0, after, 1))
    × Holds after (97 ∷ 255 ∷ 255 ∷ 255 ∷ 255 ∷ 98 ∷ 255 ∷ 255 ∷ 99 ∷ [])
read_serial-doubled_example =
    read_serial-doubled delivers (filled bytes) bytes 255 (99 ∷ []) 0 delivers-IsBoundedRead
      bytes-Holds refl (omega arith)

-- The first IAC of a pair was read before.
abbrev first_half : List ℕ
first_half = 97 ∷ 255 ∷ 241 ∷ 255 ∷ []

abbrev whole_items : List Item
whole_items = plain 97 ∷ command (short 241) ∷ command escaped ∷ plain 99 ∷ []

read_socket-decoded_example :
    (after : Buffer) × (read_socket world delivers false (pos 0) (filled first_half) session
      ≡ some (0, after, session))
    × Holds after (97 ∷ 255 ∷ 99 ∷ [])
read_socket-decoded_example =
    read_socket-decoded world delivers (pos 0) (filled first_half) first_half 255 (99 ∷ [])
      whole_items session session delivers-IsBoundedRead
      (record { valid = omega arith; bytes = refl }) refl refl
      ((λ e. absurd (omega arith)), ((refl, refl, refl), (tt, ((λ e. absurd (omega arith)), tt))))
      refl
