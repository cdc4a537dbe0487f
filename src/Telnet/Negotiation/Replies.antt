-- ===== src/Telnet/Negotiation/Replies.antt =====
-- The answers to a client's WILL, WONT, DO and DONT.
use serial_ip.Base.{
  not, Option, ℕ, some, [], ◌≡◌, inl, inr, refl, arith, ◌==◌, if◌then◌else◌, Bool-cases,
}
use serial_ip.Telnet.Codes.{will, do_, wont, dont, telopt_binary}
use serial_ip.Telnet.Negotiation.{
  answer_with, respond_binary, respond_known, respond_known_telnet_option,
  respond_telnet_binary_option, enable_telnet_client_option, disable_telnet_client_option,
  enable_telnet_server_option, disable_telnet_server_option,
}
use serial_ip.Telnet.Negotiation.Answers.{
  Agrees, Grown-refl, command, Gives, send_telnet_option-Gives,
}
use serial_ip.Telnet.Negotiation.Stream.{IsBounded, HasRoom}
use serial_ip.Telnet.Session.{Mode, ascii, binary, Session, Outside}
use serial_ip.Telnet.Negotiation.Negotiated.{
  acknowledgement, Negotiated, Rest, Moves, new_client, new_server, settle, settled, OnlyModes,
  branch, branch_not,
}

module _ (os : Outside) (optcode option : ℕ) (s : Session) (bounded : IsBounded os)
    (r : HasRoom s 3) where
  answer_with-Gives :
      (answer : ℕ) (change : Session → Session)
      → Moves s change
      → ((t : Session) → Agrees s t → Negotiated optcode option s (change t))
      → Gives
          (answer_with os answer option change s)
          s
          (command answer option s)
          (Negotiated optcode option s)
  answer_with-Gives answer change moves keeps =
      let (ret, s', e, g, a) = send_telnet_option-Gives answer option os s bounded r in
      rw e (ret, change s', refl, moves s' (command answer option s) g, keeps s' a)

  silence : Negotiated optcode option s s → Gives (some (0, s)) s [] (Negotiated optcode option s)
  silence n = (0, s, refl, Grown-refl s r.valid, n)

  switched :
      (answer : ℕ) (change : Session → Session)
      → Moves s change
      → ((t : Session) → Rest t (change t))
      → ((t : Session)
          → Agrees s t
          → (k : ℕ) → ((change t).tnoptions k).client ≡ new_client optcode option s k)
      → ((t : Session)
          → Agrees s t
          → (k : ℕ) → ((change t).tnoptions k).server ≡ new_server optcode option s k)
      → Gives
          (answer_with os answer option change s)
          s
          (command answer option s)
          (Negotiated optcode option s)
  switched answer change moves rest c v =
      answer_with-Gives answer change moves
        (λ t a. settle optcode option s (change t) a (rest t) (c t a) (v t a))

  unchanged :
      ((k : ℕ) → (s.tnoptions k).client ≡ new_client optcode option s k)
      → ((k : ℕ) → (s.tnoptions k).server ≡ new_server optcode option s k)
      → Gives (some (0, s)) s [] (Negotiated optcode option s)
  unchanged c v = silence (settled optcode option s c v)

  -- Both responders are this one, each change of an option being followed by one of the modes or none.
  abbrev responder :
      (Session → Session)
      → (Session → Session)
      → (Session → Session)
      → (Session → Session)
      → Option (ℕ × Session)
  responder client_on client_off server_on server_off =
      if optcode == will
      then if not (s.tnoptions option).client
        then answer_with os do_ option (λ t. client_on (enable_telnet_client_option option t)) s
        else some (0, s)
      else if optcode == wont
      then if (s.tnoptions option).client
        then answer_with os dont option (λ t. client_off (disable_telnet_client_option option t)) s
        else some (0, s)
      else if optcode == do_
      then if not (s.tnoptions option).server
        then answer_with os will option (λ t. server_on (enable_telnet_server_option option t)) s
        else some (0, s)
      else if optcode == dont
      then if (s.tnoptions option).server
        then answer_with os wont option (λ t. server_off (disable_telnet_server_option option t)) s
        else some (0, s)
      else some (0, s)

  responder-Gives :
      (client_on client_off server_on server_off : Session → Session)
      → OnlyModes client_on
      → OnlyModes client_off
      → OnlyModes server_on
      → OnlyModes server_off
      → Gives
          (responder client_on client_off server_on server_off)
          s
          (acknowledgement optcode option s)
          (Negotiated optcode option s)
  responder-Gives client_on client_off server_on server_off con coff son soff =
      branch (optcode == will)
        (λ asked.
          branch_not (s.tnoptions option).client
            (λ old. unchanged (λ k. ground arith) (λ k. ground arith))
            (λ new.
              (switched do_ (λ t. client_on (enable_telnet_client_option option t))
                (λ t bs g. ground (
                  arith,
                  con.out (enable_telnet_client_option option t),
                  con.sent (enable_telnet_client_option option t),
                ))
                (λ t. con.rest (enable_telnet_client_option option t))
                (λ t a k. ground (
                  arith,
                  con.tnoptions (enable_telnet_client_option option t),
                  a.client k,
                  a.client option,
                ))
                (λ t a k. ground (
                  arith,
                  con.tnoptions (enable_telnet_client_option option t),
                  a.server k,
                  a.server option,
                )))))
        (λ no_will.
          branch (optcode == wont)
            (λ asked.
              branch (s.tnoptions option).client
                (λ new.
                  (switched dont (λ t. client_off (disable_telnet_client_option option t))
                    (λ t bs g. ground (
                      arith,
                      coff.out (disable_telnet_client_option option t),
                      coff.sent (disable_telnet_client_option option t),
                    ))
                    (λ t. coff.rest (disable_telnet_client_option option t))
                    (λ t a k. ground (
                      arith,
                      coff.tnoptions (disable_telnet_client_option option t),
                      a.client k,
                      a.client option,
                    ))
                    (λ t a k. ground (
                      arith,
                      coff.tnoptions (disable_telnet_client_option option t),
                      a.server k,
                      a.server option,
                    ))))
                (λ old. unchanged (λ k. ground arith) (λ k. ground arith)))
            (λ no_wont.
              branch (optcode == do_)
                (λ asked.
                  branch_not (s.tnoptions option).server
                    (λ old. unchanged (λ k. ground arith) (λ k. ground arith))
                    (λ new.
                      (switched will (λ t. server_on (enable_telnet_server_option option t))
                        (λ t bs g. ground (
                          arith,
                          son.out (enable_telnet_server_option option t),
                          son.sent (enable_telnet_server_option option t),
                        ))
                        (λ t. son.rest (enable_telnet_server_option option t))
                        (λ t a k. ground (
                          arith,
                          son.tnoptions (enable_telnet_server_option option t),
                          a.client k,
                          a.client option,
                        ))
                        (λ t a k. ground (
                          arith,
                          son.tnoptions (enable_telnet_server_option option t),
                          a.server k,
                          a.server option,
                        )))))
                (λ no_do.
                  branch (optcode == dont)
                    (λ asked.
                      branch (s.tnoptions option).server
                        (λ new.
                          (switched wont (λ t. server_off (disable_telnet_server_option option t))
                            (λ t bs g. ground (
                              arith,
                              soff.out (disable_telnet_server_option option t),
                              soff.sent (disable_telnet_server_option option t),
                            ))
                            (λ t. soff.rest (disable_telnet_server_option option t))
                            (λ t a k. ground (
                              arith,
                              soff.tnoptions (disable_telnet_server_option option t),
                              a.client k,
                              a.client option,
                            ))
                            (λ t a k. ground (
                              arith,
                              soff.tnoptions (disable_telnet_server_option option t),
                              a.server k,
                              a.server option,
                            ))))
                        (λ old. unchanged (λ k. ground arith) (λ k. ground arith)))
                    (λ no_dont. unchanged (λ k. ground arith) (λ k. ground arith)))))

  respond_known-Gives :
      Gives
        (respond_known os optcode option s)
        s
        (acknowledgement optcode option s)
        (Negotiated optcode option s)
  unfolding respond_known
  respond_known-Gives =
      responder-Gives (λ t. t) (λ t. t) (λ t. t) (λ t. t) only_modes only_modes only_modes
        only_modes
    where
      only_modes : OnlyModes (λ t. t)
      only_modes = record {
        tnoptions = λ t. refl;
        out = λ t. refl;
        sent = λ t. refl;
        rest = λ t. (refl, refl, refl, refl);
      }

  respond_binary-Gives :
      Gives
        (respond_binary os optcode option s)
        s
        (acknowledgement optcode option s)
        (Negotiated optcode option s)
  unfolding respond_binary
  respond_binary-Gives =
      responder-Gives (λ t. record t { client_mode = binary })
        (λ t. record t { client_mode = ascii }) (λ t. record t { server_mode = binary })
        (λ t. record t { server_mode = ascii }) (client_modes binary) (client_modes ascii)
        (server_modes binary) (server_modes ascii)
    where
      client_modes : (m : Mode) → OnlyModes (λ t. record t { client_mode = m })
      client_modes m = record {
        tnoptions = λ t. refl;
        out = λ t. refl;
        sent = λ t. refl;
        rest = λ t. (refl, refl, refl, refl);
      }

      server_modes : (m : Mode) → OnlyModes (λ t. record t { server_mode = m })
      server_modes m = record {
        tnoptions = λ t. refl;
        out = λ t. refl;
        sent = λ t. refl;
        rest = λ t. (refl, refl, refl, refl);
      }

  -- A known option's WILL, WONT, DO or DONT turns that side of that option on or off and nothing
  -- else; the answer is written once, only when the side changes and that answer was not sent before.
  pub respond_known_telnet_option-Gives :
      Gives
        (respond_known_telnet_option os optcode option s)
        s
        (acknowledgement optcode option s)
        (Negotiated optcode option s)
  unfolding respond_known_telnet_option
  respond_known_telnet_option-Gives = elim (Bool-cases (option == telopt_binary)) [
    | inl b ↦ rw b respond_binary-Gives
    | inr o ↦ rw o respond_known-Gives
  ]

  pub respond_telnet_binary_option-Gives :
      Gives
        (respond_telnet_binary_option os optcode option s)
        s
        (acknowledgement optcode option s)
        (Negotiated optcode option s)
  unfolding respond_telnet_binary_option
  respond_telnet_binary_option-Gives = elim (Bool-cases (option == telopt_binary)) [
    | inl b ↦ rw b respond_binary-Gives
    | inr o ↦ rw o respond_known-Gives
  ]
