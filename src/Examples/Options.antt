-- ===== src/Examples/Options.antt =====
-- The negotiation of options.
use serial_ip.Base.{ℕ, false, some, [], ◌∷◌, ◌≡◌, refl, arith}
use serial_ip.Examples.{session, world, world-IsBounded, session-HasRoom}
use serial_ip.Telnet.Codes.{
  iac, do_, will, dont, telopt_com_port_option, telopt_kermit, telopt_logout, telopt_binary,
}
use serial_ip.Telnet.Negotiation.{telnet_option_was_sent, respond_telnet_option}
use serial_ip.Telnet.Negotiation.Answers.{Agrees, Gives}
use serial_ip.Telnet.Negotiation.Negotiated.{Negotiated}
use serial_ip.Telnet.Negotiation.Modes.{ModesMatch, respond_telnet_option-ModesMatch}
use serial_ip.Telnet.Negotiation.Stream.{Grown}
use serial_ip.Telnet.Negotiation.Supported.{
  respond_telnet_option-supported, respond_telnet_option-refused, respond_telnet_option-logout,
}
use serial_ip.Telnet.Session.{Session}

respond_telnet_option-supported_example :
    Gives
      (respond_telnet_option world will telopt_com_port_option session)
      session
      (iac ∷ do_ ∷ telopt_com_port_option ∷ [])
      (Negotiated will telopt_com_port_option session)
unfolding telnet_option_was_sent
respond_telnet_option-supported_example =
    respond_telnet_option-supported world will telopt_com_port_option session world-IsBounded
      (session-HasRoom 3 (omega arith)) refl

respond_telnet_option-refused_example :
    Gives
      (respond_telnet_option world will telopt_kermit session)
      session
      (iac ∷ dont ∷ telopt_kermit ∷ [])
      (Agrees session)
unfolding telnet_option_was_sent
respond_telnet_option-refused_example =
    respond_telnet_option-refused world will telopt_kermit session world-IsBounded
      (session-HasRoom 3 (omega arith)) refl refl

respond_telnet_option-logout_example :
    (ret : ℕ) × (s' : Session) × (respond_telnet_option world do_ telopt_logout session
      ≡ some (ret, s'))
    × Grown session (iac ∷ will ∷ telopt_logout ∷ []) s'
    × (s'.client_logged_in ≡ false)
unfolding telnet_option_was_sent
respond_telnet_option-logout_example =
    respond_telnet_option-logout world do_ telopt_logout session world-IsBounded
      (session-HasRoom 3 (omega arith)) refl

session-ModesMatch : ModesMatch session
session-ModesMatch = record { client = refl; server = refl }

respond_telnet_option-ModesMatch_example :
    (ret : ℕ) × (s' : Session) × (respond_telnet_option world will telopt_binary session
      ≡ some (ret, s'))
    × ModesMatch s'
respond_telnet_option-ModesMatch_example =
    respond_telnet_option-ModesMatch world will telopt_binary session world-IsBounded
      (session-HasRoom 3 (omega arith)) session-ModesMatch refl
