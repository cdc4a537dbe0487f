-- ===== src/Telnet/Cpc/Replies.antt =====
-- What the Com Port Control responders send, and what they do to the line.
use serial_ip.Base.{
  ℕ, ◌^◌, ◌<◌, Option, some, List, ◌≡◌, refl, inl, inr, ◌==◌, if◌then◌else◌, length, arith,
  Bool-cases,
}
use serial_ip.Base.Integer.{ℤ, ◌+ℤ◌}
use serial_ip.Serial.Line.{Line, Driver, ask_line}
use serial_ip.Serial.Termios.{Settings}
use serial_ip.Telnet.Cpc.{
  cpc_optstr, shortfall, command_value, htonl, send_telnet_cpc_suboption, report_line, respond_line,
}
use serial_ip.Telnet.Cpc.Frame.{cpc_optstr-length}
use serial_ip.Telnet.Negotiation.Stream.{IsBounded, HasRoom, Grown, append_and_write-Grown}
use serial_ip.Telnet.Session.{Session, Outside}

-- A value below 2 ^ 32 is read back from its four bytes in network order.
pub command_value-htonl : (v : ℕ) → v < 2 ^ 32 → command_value (htonl v) ≡ v
unfolding command_value
command_value-htonl v h = omega arith

-- What a responder gives: the suboption `optstr` in the stream, and the line as `l`.
abbrev Reports : Option (ℤ × Session) → Session → List ℕ → Line → Type 0
Reports out s optstr l =
    (ret : ℤ) × (s' : Session) × (out ≡ some (ret, s')) × Grown s optstr s' × (s'.line ≡ l)

-- The room that any suboption needs.
abbrev pub HasCpcRoom : Session → Type 0
HasCpcRoom s = HasRoom s 259

module _ (os : Outside) (bounded : IsBounded os) where
  pub send_telnet_cpc_suboption-Reports :
      (suboptcode : ℕ) (content : List ℕ) (s : Session)
      → HasCpcRoom s
      → Reports
          (send_telnet_cpc_suboption os suboptcode content s)
          s
          (cpc_optstr suboptcode content)
          s.line
  unfolding send_telnet_cpc_suboption
  send_telnet_cpc_suboption-Reports suboptcode content s r =
      let fits : HasRoom s (length (cpc_optstr suboptcode content)) = record {
        valid = r.valid;
        room = omega (arith, r.room, cpc_optstr-length suboptcode content);
      } in
      let (w, s', e, g, k) =
        append_and_write-Grown os (cpc_optstr suboptcode content) s bounded fits in
      rw e (shortfall w, s', refl, g, k.line)

  report_line-Reports :
      (suboptcode : ℕ) (get : Settings → ℕ) (bytes : ℕ → List ℕ) (s : Session)
      → HasCpcRoom s
      → let (v, l) = ask_line os.driver get s.line in
        Reports (report_line os suboptcode get bytes s) s (cpc_optstr suboptcode (bytes v)) l
  unfolding report_line
  report_line-Reports suboptcode get bytes s r =
      let (v, l) = ask_line os.driver get s.line in
      let (ret, s', e, g, k) =
        send_telnet_cpc_suboption-Reports suboptcode (bytes v) (record s { line = l })
          (record { valid = r.valid; room = r.room }) in
      (
        ret,
        s',
        e,
        record { grew = g.grew; valid = g.valid; same_size = g.same_size; used = g.used },
        k,
      )

  -- With room for a suboption, a responder that is given 0 leaves the line, and one given another
  -- value calls the setter with it; in both cases it then reads the setting from the line and adds
  -- the suboption that reports it to the stream.
  pub respond_line-Reports :
      (suboptcode : ℕ)
      → (set : Driver → ℕ → Line → ℤ × Line)
      → (get : Settings → ℕ) (bytes : ℕ → List ℕ) (value : ℕ) (s : Session) → HasCpcRoom s
      → let l = if value == 0 then s.line else (set os.driver value s.line).1 in
        let (v, l') = ask_line os.driver get l in
        Reports
          (respond_line os suboptcode set get bytes value s)
          s
          (cpc_optstr suboptcode (bytes v))
          l'
  unfolding respond_line
  respond_line-Reports suboptcode set get bytes value s r = elim (Bool-cases (value == 0)) [
    | inl asked ↦ rw asked (report_line-Reports suboptcode get bytes s r)
    | inr given ↦
        let (ret, l) = set os.driver value s.line in
        let (ret', s', e, g, k) =
          report_line-Reports suboptcode get bytes (record s { line = l })
            (record { valid = r.valid; room = r.room }) in
        rw (given, e)
          (
            ret +ℤ ret',
            s',
            refl,
            record { grew = g.grew; valid = g.valid; same_size = g.same_size; used = g.used },
            k,
          )
  ]
