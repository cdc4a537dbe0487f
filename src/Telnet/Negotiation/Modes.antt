-- ===== src/Telnet/Negotiation/Modes.antt =====
-- The transfer modes and the binary option.
use serial_ip.Base.{
  ℕ, Bool, true, false, ◌||◌, Option, none, some, ◌≡◌, ◌≢◌, refl, sym, ap, ◌∙◌, inl, inr, arith,
  ◌==◌, if◌then◌else◌, ◌>>=◌, Bool-cases,
}
use serial_ip.Telnet.Codes.{
  will, wont, do_, dont, telopt_binary, telopt_echo, telopt_sga, telopt_logout,
  telopt_com_port_option,
}
use serial_ip.Telnet.Negotiation.{
  respond_telnet_option, refusal, respond_known_telnet_option, respond_telnet_binary_option,
  respond_binary, respond_known, send_telnet_option, answer_with, enable_telnet_client_option,
  disable_telnet_client_option, enable_telnet_server_option, disable_telnet_server_option,
  telnet_client_option_is_disabled, telnet_client_option_is_enabled,
  telnet_server_option_is_disabled, telnet_server_option_is_enabled,
}
use serial_ip.Telnet.Negotiation.Answers.{Agrees, send_telnet_option-Gives}
use serial_ip.Telnet.Negotiation.Stream.{IsBounded, HasRoom}
use serial_ip.Telnet.Session.{Session, Outside, Mode, ascii, binary}

abbrev pub mode_of : Bool → Mode
mode_of true = binary
mode_of false = ascii

-- Each side is in binary mode when it has the binary option on, and in ASCII mode when not.
pub record ModesMatch (s : Session) : Type 0 where
  pub client : s.client_mode ≡ mode_of (s.tnoptions telopt_binary).client
  pub server : s.server_mode ≡ mode_of (s.tnoptions telopt_binary).server

Agrees-ModesMatch : {s t : Session} → Agrees s t → ModesMatch s → ModesMatch t
Agrees-ModesMatch a m = record {
  client = a.client_mode ∙ m.client ∙ ap mode_of (sym (a.client telopt_binary));
  server = a.server_mode ∙ m.server ∙ ap mode_of (sym (a.server telopt_binary));
}

-- A call that returns a session whose modes match.
abbrev Keeps : Option (ℕ × Session) → Type 0
Keeps out = (ret : ℕ) × (s' : Session) × (out ≡ some (ret, s')) × ModesMatch s'

either : {a b : Option (ℕ × Session)} → (c : Bool) → Keeps a → Keeps b → Keeps (if c then a else b)
either true p q = p
either false p q = q

module _ (os : Outside) (optcode option : ℕ) (s : Session) (bounded : IsBounded os)
    (r : HasRoom s 3) (m : ModesMatch s) where
  sends_Keeps :
      (answer : ℕ) (change : Session → Session)
      → ((t : Session) → ModesMatch t → ModesMatch (change t))
      → Keeps (answer_with os answer option change s)
  sends_Keeps answer change keeps =
      let (ret, t, e, g, a) = send_telnet_option-Gives answer option os s bounded r in
      rw e (ret, change t, refl, keeps t (Agrees-ModesMatch a m))

  quiet : Keeps (some (0, s))
  quiet = (0, s, refl, m)

  respond_known-Keeps : option == telopt_binary ≡ false → Keeps (respond_known os optcode option s)
  unfolding respond_known
  respond_known-Keeps other =
      either (optcode == will)
        (either (telnet_client_option_is_disabled option s)
          (sends_Keeps do_ (enable_telnet_client_option option)
            (λ t k. ground (arith, k.client, k.server)))
          quiet)
        (either (optcode == wont)
          (either (telnet_client_option_is_enabled option s)
            (sends_Keeps dont (disable_telnet_client_option option)
              (λ t k. ground (arith, k.client, k.server)))
            quiet)
          (either (optcode == do_)
            (either (telnet_server_option_is_disabled option s)
              (sends_Keeps will (enable_telnet_server_option option)
                (λ t k. ground (arith, k.client, k.server)))
              quiet)
            (either (optcode == dont)
              (either (telnet_server_option_is_enabled option s)
                (sends_Keeps wont (disable_telnet_server_option option)
                  (λ t k. ground (arith, k.client, k.server)))
                quiet)
              quiet)))

  respond_binary-Keeps : option ≡ telopt_binary → Keeps (respond_binary os optcode option s)
  unfolding respond_binary
  respond_binary-Keeps here =
      either (optcode == will)
        (either (telnet_client_option_is_disabled option s)
          (sends_Keeps do_
            (λ t. record (enable_telnet_client_option option t) { client_mode = binary })
            (λ t k. ground (arith, k.client, k.server)))
          quiet)
        (either (optcode == wont)
          (either (telnet_client_option_is_enabled option s)
            (sends_Keeps dont
              (λ t. record (disable_telnet_client_option option t) { client_mode = ascii })
              (λ t k. ground (arith, k.client, k.server)))
            quiet)
          (either (optcode == do_)
            (either (telnet_server_option_is_disabled option s)
              (sends_Keeps will
                (λ t. record (enable_telnet_server_option option t) { server_mode = binary })
                (λ t k. ground (arith, k.client, k.server)))
              quiet)
            (either (optcode == dont)
              (either (telnet_server_option_is_enabled option s)
                (sends_Keeps wont
                  (λ t. record (disable_telnet_server_option option t) { server_mode = ascii })
                  (λ t k. ground (arith, k.client, k.server)))
                quiet)
              quiet)))

  known-Keeps : Keeps (
      if option == telopt_binary
      then respond_binary os optcode option s
      else respond_known os optcode option s)
  known-Keeps = elim (Bool-cases (option == telopt_binary)) [
    | inl here ↦ rw here (respond_binary-Keeps (ground arith))
    | inr other ↦ rw other (respond_known-Keeps other)
  ]

  -- Logging out changes no mode.
  logged_out-Keeps :
      (leaves : Bool) (out : Option (ℕ × Session))
      → Keeps out
      → Keeps (
          out >>= λ (ret, t).
          some (ret, if leaves then record t { client_logged_in = false } else t))
  logged_out-Keeps true out (ret, t, e, k) = rw e (
    ret,
    record t { client_logged_in = false },
    refl,
    record { client = k.client; server = k.server },
  )
  logged_out-Keeps false out (ret, t, e, k) = rw e (ret, t, refl, k)

  refused-Keeps :
      (answer : Option ℕ) → answer ≢ none → Keeps (answer >>= λ a. send_telnet_option os a option s)
  refused-Keeps none given = absurd (given refl)
  refused-Keeps (some answer) given =
      let (ret, t, e, g, a) = send_telnet_option-Gives answer option os s bounded r in
      (ret, t, e, Agrees-ModesMatch a m)

  -- With room for three bytes, when each side's transfer mode is binary exactly if its binary
  -- option is on, then a WILL, WONT, DO or DONT about any option is answered and this is so
  -- afterwards.
  pub respond_telnet_option-ModesMatch :
      (optcode == will || optcode == wont || optcode == do_ || optcode == dont) ≡ true
      → (ret : ℕ) × (s' : Session) × (respond_telnet_option os optcode option s ≡ some (ret, s'))
        × ModesMatch s'
  unfolding respond_telnet_option respond_known_telnet_option respond_telnet_binary_option
  respond_telnet_option-ModesMatch asked =
      either (option == telopt_com_port_option || option == telopt_echo || option == telopt_sga)
        known-Keeps
        (either (option == telopt_logout)
          (logged_out-Keeps (optcode == will || optcode == do_)
            (if option == telopt_binary
              then respond_binary os optcode option s
              else respond_known os optcode option s)
            known-Keeps)
          (either (option == telopt_binary) known-Keeps (refused-Keeps (refusal optcode) given)))
    where
      given : refusal optcode ≢ none
      given e = ground arith
