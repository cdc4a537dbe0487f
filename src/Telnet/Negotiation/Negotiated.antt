-- ===== src/Telnet/Negotiation/Negotiated.antt =====
-- What a client's WILL, WONT, DO or DONT leaves, and when it is acknowledged.
use serial_ip.Base.{
  not, Option, ℕ, Bool, true, false, List, [], ◌≡◌, refl, ◌∙◌, ◌==◌, if◌then◌else◌,
}
use serial_ip.Telnet.Codes.{will, do_, wont, dont}
use serial_ip.Telnet.Negotiation.Answers.{Agrees, Agrees-refl, command, Gives}
use serial_ip.Telnet.Negotiation.Stream.{Grown}
use serial_ip.Telnet.Session.{Session}

-- The answer that RFC 854 gives a change of state, and silence for what is already in force.
abbrev pub acknowledgement : ℕ → ℕ → Session → List ℕ
acknowledgement optcode option s =
    if optcode == will
    then (if (s.tnoptions option).client then [] else command do_ option s)
    else if optcode == wont
    then (if (s.tnoptions option).client then command dont option s else [])
    else if optcode == do_
    then (if (s.tnoptions option).server then [] else command will option s)
    else if optcode == dont
    then (if (s.tnoptions option).server then command wont option s else [])
    else []

-- The state of every option after `optcode option`: the client's side follows WILL and WONT, ours DO
-- and DONT, and nothing else moves.
pub record Negotiated (optcode option : ℕ) (s s' : Session) : Type 0 where
  pub client :
      (k : ℕ)
      → (s'.tnoptions k).client ≡ (
          if k == option
          then (if optcode == will
              then true
              else if optcode == wont
              then false
              else (s.tnoptions k).client)
          else (s.tnoptions k).client)
  pub server :
      (k : ℕ)
      → (s'.tnoptions k).server ≡ (
          if k == option
          then (if optcode == do_
              then true
              else if optcode == dont
              then false
              else (s.tnoptions k).server)
          else (s.tnoptions k).server)
  pub session_state : s'.session_state ≡ s.session_state
  pub ask_client_signature : s'.ask_client_signature ≡ s.ask_client_signature
  pub client_logged_in : s'.client_logged_in ≡ s.client_logged_in
  pub line : s'.line ≡ s.line

-- What the options and the modes have no part in.
abbrev pub Rest : Session → Session → Type 0
Rest t u =
    (u.session_state ≡ t.session_state)
    × (u.ask_client_signature ≡ t.ask_client_signature)
    × (u.client_logged_in ≡ t.client_logged_in)
    × (u.line ≡ t.line)

-- A change of the options and modes alone.
abbrev pub Moves : Session → (Session → Session) → Type 0
Moves s change = (t : Session) → (bs : List ℕ) → Grown s bs t → Grown s bs (change t)

module _ (optcode option : ℕ) (s : Session) where
  -- The new state of the client's side, and of ours.
  abbrev pub new_client : ℕ → Bool
  new_client k =
      if k == option
      then (if optcode == will
          then true
          else if optcode == wont
          then false
          else (s.tnoptions k).client)
      else (s.tnoptions k).client

  abbrev pub new_server : ℕ → Bool
  new_server k =
      if k == option
      then (if optcode == do_
          then true
          else if optcode == dont
          then false
          else (s.tnoptions k).server)
      else (s.tnoptions k).server

  pub settle :
      {t : Session} (u : Session)
      → Agrees s t
      → Rest t u
      → ((k : ℕ) → (u.tnoptions k).client ≡ new_client k)
      → ((k : ℕ) → (u.tnoptions k).server ≡ new_server k)
      → Negotiated optcode option s u
  settle u a rest c v = record {
    client = c;
    server = v;
    session_state = rest.0 ∙ a.session_state;
    ask_client_signature = rest.1 ∙ a.ask_client_signature;
    client_logged_in = rest.2 ∙ a.client_logged_in;
    line = rest.3 ∙ a.line;
  }

  -- A side that is already as asked is left as it is.
  pub settled :
      ((k : ℕ) → (s.tnoptions k).client ≡ new_client k)
      → ((k : ℕ) → (s.tnoptions k).server ≡ new_server k)
      → Negotiated optcode option s s
  settled = settle s (Agrees-refl s) (refl, refl, refl, refl)

-- A change of the modes alone.
pub record OnlyModes (change : Session → Session) : Type 0 where
  pub tnoptions : (t : Session) → (change t).tnoptions ≡ t.tnoptions
  pub out : (t : Session) → (change t).out ≡ t.out
  pub sent : (t : Session) → (change t).sent ≡ t.sent
  pub rest : (t : Session) → Rest t (change t)

-- A test that decides both what is returned and what is written.
pub branch :
    {a b : Option (ℕ × Session)} {s : Session} {bs cs : List ℕ} {P : Session → Type 0} (c : Bool)
    → (c ≡ true → Gives a s bs P)
    → (c ≡ false → Gives b s cs P)
    → Gives (if c then a else b) s (if c then bs else cs) P
branch true p q = p refl
branch false p q = q refl

pub branch_not :
    {a b : Option (ℕ × Session)} {s : Session} {bs cs : List ℕ} {P : Session → Type 0} (c : Bool)
    → (c ≡ true → Gives b s bs P)
    → (c ≡ false → Gives a s cs P)
    → Gives (if not c then a else b) s (if c then bs else cs) P
branch_not true p q = p refl
branch_not false p q = q refl
