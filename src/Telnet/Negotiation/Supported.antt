-- ===== src/Telnet/Negotiation/Supported.antt =====
-- The answers to every option, the unknown ones included.
use serial_ip.Base.{
  ℕ, Bool, true, false, ◌||◌, some, ◌≡◌, refl, inl, inr, arith, ◌==◌, if◌then◌else◌, Bool-cases,
}
use serial_ip.Telnet.Codes.{
  will, do_, wont, dont, telopt_binary, telopt_echo, telopt_sga, telopt_logout,
  telopt_com_port_option,
}
use serial_ip.Telnet.Negotiation.{respond_telnet_option, refusal}
use serial_ip.Telnet.Negotiation.Answers.{Agrees, Gives, command, send_telnet_option-Gives}
use serial_ip.Telnet.Negotiation.Negotiated.{acknowledgement, Negotiated}
use serial_ip.Telnet.Negotiation.Replies.{
  respond_known_telnet_option-Gives, respond_telnet_binary_option-Gives,
}
use serial_ip.Telnet.Negotiation.Stream.{IsBounded, HasRoom, Grown}
use serial_ip.Telnet.Session.{Session, Outside}

-- The options that the program supports, but for logging out.
abbrev pub is_supported : ℕ → Bool
is_supported option =
    option == telopt_com_port_option
    || option == telopt_echo
    || option == telopt_sga
    || option == telopt_binary

abbrev pub is_known : ℕ → Bool
is_known option = is_supported option || option == telopt_logout

module _ (os : Outside) (optcode option : ℕ) (s : Session) (bounded : IsBounded os)
    (r : HasRoom s 3) where
  -- With room for three bytes in the buffer of answers, a request about the Com Port Control,
  -- echo, suppress go-ahead or binary option switches its side of that option as WILL, WONT, DO or
  -- DONT says, and no other, leaves the session's state, signature request, login and line alone,
  -- and adds the acknowledgement to the stream exactly if the side changes and that answer was not
  -- sent before.
  pub respond_telnet_option-supported :
      is_supported option ≡ true
      → Gives
          (respond_telnet_option os optcode option s)
          s
          (acknowledgement optcode option s)
          (Negotiated optcode option s)
  unfolding respond_telnet_option
  respond_telnet_option-supported known =
      elim (Bool-cases
        (option == telopt_com_port_option || option == telopt_echo || option == telopt_sga)) [
          | inl first ↦ rw first (respond_known_telnet_option-Gives os optcode option s bounded r)
          | inr other ↦
              let is_binary : option == telopt_binary ≡ true = ground arith in
              let no_logout : option == telopt_logout ≡ false = ground arith in
              rw (other, no_logout, is_binary)
                (respond_telnet_binary_option-Gives os optcode option s bounded r)
        ]

  -- With room for three bytes, an option that the program does not know is refused: WILL and WONT
  -- are answered with DONT, DO and DONT with WONT, unless that answer was sent before for the
  -- option, and the negotiated state stays as it was.
  pub respond_telnet_option-refused :
      is_known option ≡ false
      → (optcode == will || optcode == wont || optcode == do_ || optcode == dont) ≡ true
      → Gives
          (respond_telnet_option os optcode option s)
          s
          (command (if optcode == will || optcode == wont then dont else wont) option s)
          (Agrees s)
  unfolding respond_telnet_option
  respond_telnet_option-refused unknown asked =
      let answer : ℕ = if optcode == will || optcode == wont then dont else wont in
      let first : (option == telopt_com_port_option
            || option == telopt_echo
            || option == telopt_sga)
          ≡ false =
        ground arith in
      let no_binary : option == telopt_binary ≡ false = ground arith in
      let no_logout : option == telopt_logout ≡ false = ground arith in
      let e : refusal optcode ≡ some answer = ground arith in
      rw (first, no_logout, no_binary, e) (send_telnet_option-Gives answer option os s bounded r)

  -- With room for three bytes, a request about the logout option is acknowledged like that of a
  -- supported option, and WILL and DO mark the client as logged out while any other code leaves
  -- that mark as it was.
  pub respond_telnet_option-logout :
      option ≡ telopt_logout
      → (ret : ℕ) × (s' : Session) × (respond_telnet_option os optcode option s ≡ some (ret, s'))
        × Grown s (acknowledgement optcode option s) s'
        × (s'.client_logged_in
            ≡ (if optcode == will || optcode == do_ then false else s.client_logged_in))
  unfolding respond_telnet_option
  respond_telnet_option-logout e =
      let (ret, s', acts, g, n) = respond_known_telnet_option-Gives os optcode option s bounded r in
      let first : (option == telopt_com_port_option
            || option == telopt_echo
            || option == telopt_sga)
          ≡ false =
        ground arith in
      let logout : option == telopt_logout ≡ true = ground arith in
      rw (first, logout, acts)
        (elim (Bool-cases (optcode == will || optcode == do_)) [
          | inl leaves ↦
              rw leaves (ret, record s' { client_logged_in = false }, refl, ground arith, refl)
          | inr stays ↦ rw stays (ret, s', refl, g, n.client_logged_in)
        ])
