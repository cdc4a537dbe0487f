-- ===== src/Telnet/Negotiation/Answers.antt =====
-- What the negotiation answers, and what it records.
use serial_ip.Base.{
  ℕ, Bool, true, false, Option, none, some, List, [], ◌∷◌, ◌≡◌, inl, inr, refl, sym, ap, append-nil,
  arith, if◌then◌else◌, Bool-cases,
}
use serial_ip.Buffer.Invariant.{IsValid}
use serial_ip.Telnet.Codes.{iac}
use serial_ip.Telnet.Negotiation.{
  send_telnet_option, after_option, mark_telnet_option_as_sent, telnet_option_was_sent,
}
use serial_ip.Telnet.Negotiation.Stream.{
  stream, IsBounded, HasRoom, Kept, Grown, append_and_write-Grown,
}
use serial_ip.Telnet.Session.{Session, Outside}

-- The negotiated state is that of the first session: which options are on, the modes, and the rest
-- of the session but for the buffer, the socket and the marks of what was sent.
pub record Agrees (s s' : Session) : Type 0 where
  pub client : (k : ℕ) → (s'.tnoptions k).client ≡ (s.tnoptions k).client
  pub server : (k : ℕ) → (s'.tnoptions k).server ≡ (s.tnoptions k).server
  pub client_mode : s'.client_mode ≡ s.client_mode
  pub server_mode : s'.server_mode ≡ s.server_mode
  pub session_state : s'.session_state ≡ s.session_state
  pub ask_client_signature : s'.ask_client_signature ≡ s.ask_client_signature
  pub client_logged_in : s'.client_logged_in ≡ s.client_logged_in
  pub line : s'.line ≡ s.line

pub Agrees-refl : (s : Session) → Agrees s s
Agrees-refl s = record {
  client = λ k. refl;
  server = λ k. refl;
  client_mode = refl;
  server_mode = refl;
  session_state = refl;
  ask_client_signature = refl;
  client_logged_in = refl;
  line = refl;
}

Kept-Agrees : {s s' : Session} → Kept s s' → Agrees s s'
Kept-Agrees k = record {
  client = λ j. ap (λ t. (t j).client) k.tnoptions;
  server = λ j. ap (λ t. (t j).server) k.tnoptions;
  client_mode = k.client_mode;
  server_mode = k.server_mode;
  session_state = k.session_state;
  ask_client_signature = k.ask_client_signature;
  client_logged_in = k.client_logged_in;
  line = k.line;
}

-- Marking an option changes none of this.
mark-Agrees :
    (optcode option : ℕ) (s s' : Session)
    → Agrees s s'
    → Agrees s (mark_telnet_option_as_sent optcode option s')
unfolding mark_telnet_option_as_sent
mark-Agrees optcode option s s' a = record {
  client = λ k. ground (arith, a.client k, a.client option);
  server = λ k. ground (arith, a.server k, a.server option);
  client_mode = ground arith;
  server_mode = ground arith;
  session_state = ground arith;
  ask_client_signature = ground arith;
  client_logged_in = ground arith;
  line = ground arith;
}

pub Grown-refl : (s : Session) → IsValid s.out → Grown s [] s
Grown-refl s v = record {
  grew = sym (append-nil (stream s));
  valid = v;
  same_size = refl;
  used = omega arith;
}

-- What a call gives: the stream grew by `bs`, and the session passed the test `P`.
abbrev pub Gives : Option (ℕ × Session) → Session → List ℕ → (Session → Type 0) → Type 0
Gives out s bs P = (ret : ℕ) × (s' : Session) × (out ≡ some (ret, s')) × Grown s bs s' × P s'

module _ (optcode option : ℕ) where
  pub after_option-Grown :
      (w : Option Bool) (s s' : Session) (bs : List ℕ)
      → Grown s bs s'
      → Grown s bs (after_option optcode option w s').1
  unfolding after_option
  after_option-Grown none s s' bs g = g
  after_option-Grown (some false) s s' bs g = g
  after_option-Grown (some true) s s' bs g = record {
    grew = ground (arith, g.grew);
    valid = ground (arith, g.valid);
    same_size = ground (arith, g.same_size);
    used = ground (arith, g.used);
  }

  after_option-Agrees :
      (w : Option Bool) (s s' : Session)
      → Agrees s s'
      → Agrees s (after_option optcode option w s').1
  unfolding after_option
  after_option-Agrees none s s' a = a
  after_option-Agrees (some false) s s' a = a
  after_option-Agrees (some true) s s' a = mark-Agrees optcode option s s' a

  -- The command that a call of `send_telnet_option` adds: none if it was sent before.
  abbrev pub command : Session → List ℕ
  command s = if telnet_option_was_sent optcode option s then [] else iac ∷ optcode ∷ option ∷ []

  -- With room for three bytes, `send_telnet_option` adds the command to the stream exactly if that
  -- code was not marked as sent for the option, whatever part of it the socket takes, and does not
  -- change the negotiated state.
  pub send_telnet_option-Gives :
      (os : Outside) (s : Session)
      → IsBounded os
      → HasRoom s 3
      → Gives (send_telnet_option os optcode option s) s (command s) (Agrees s)
  unfolding send_telnet_option
  send_telnet_option-Gives os s bounded r =
      elim (Bool-cases (telnet_option_was_sent optcode option s)) [
        | inl old ↦ rw old (0, s, refl, Grown-refl s r.valid, Agrees-refl s)
        | inr new ↦
            let (w, s', e, g, k) =
              append_and_write-Grown os (iac ∷ optcode ∷ option ∷ []) s bounded r in
            rw (new, e)
              (
                (after_option optcode option w s').0,
                (after_option optcode option w s').1,
                refl,
                after_option-Grown w s s' (iac ∷ optcode ∷ option ∷ []) g,
                after_option-Agrees w s s' (Kept-Agrees k),
              )
      ]
