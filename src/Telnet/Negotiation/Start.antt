-- ===== src/Telnet/Negotiation/Start.antt =====
-- What `telnet_init` sends.
use serial_ip.Base.{
  ℕ, ◌+◌, ◌≤◌, Bool, true, false, ◌&&◌, ◌||◌, Option, none, some, List, [], ◌∷◌, ◌++◌, ◌≡◌, refl,
  ◌∙◌, arith, ◌==◌, length,
}
use serial_ip.Telnet.Codes.{
  iac, will, do_, telopt_binary, telopt_echo, telopt_sga, telopt_logout, telopt_com_port_option,
}
use serial_ip.Telnet.Negotiation.{
  send_init_telnet_option, after_option, mark_telnet_option_as_sent, telnet_option_was_sent,
  telnet_init, options_off,
}
use serial_ip.Telnet.Negotiation.Answers.{Gives, Grown-refl, after_option-Grown}
use serial_ip.Telnet.Negotiation.Stream.{
  IsBounded, HasRoom, Kept, Grown, Grown-trans, Grown-HasRoom, append_and_write-Grown,
}
use serial_ip.Telnet.Session.{Session, Outside, ascii, resume}

-- Only the one code may have become a sent one.
abbrev Marks : ℕ → ℕ → Session → Session → Type 0
Marks optcode option s s' =
    (b k : ℕ)
    → (b == optcode && k == option) ≡ false
    → telnet_option_was_sent b k s' ≡ telnet_option_was_sent b k s

mark-Marks :
    (optcode option : ℕ) (s : Session)
    → Marks optcode option s (mark_telnet_option_as_sent optcode option s)
unfolding mark_telnet_option_as_sent telnet_option_was_sent
mark-Marks optcode option s b k other = ground arith

same :
    (s s' : Session)
    → Kept s s'
    → (b k : ℕ) → telnet_option_was_sent b k s' ≡ telnet_option_was_sent b k s
unfolding telnet_option_was_sent
same s s' kept b k = rw kept.tnoptions refl

module _ (os : Outside) (bounded : IsBounded os) (optcode option : ℕ) where
  after_option-Marks :
      (w : Option Bool) (s s' : Session)
      → Kept s s'
      → Marks optcode option s (after_option optcode option w s').1
  unfolding after_option
  after_option-Marks none s s' k b j other = same s s' k b j
  after_option-Marks (some false) s s' k b j other = same s s' k b j
  after_option-Marks (some true) s s' k b j other =
      mark-Marks optcode option s' b j other ∙ same s s' k b j

  -- A code that was not sent is sent.
  sends :
      (s : Session)
      → telnet_option_was_sent optcode option s ≡ false
      → HasRoom s 3
      → Gives
          (send_init_telnet_option os optcode option s)
          s
          (iac ∷ optcode ∷ option ∷ [])
          (Marks optcode option s)
  unfolding send_init_telnet_option
  sends s new r =
      let (w, s', e, g, k) = append_and_write-Grown os (iac ∷ optcode ∷ option ∷ []) s bounded r in
      rw (new, e)
        (
          (after_option optcode option w s').0,
          (after_option optcode option w s').1,
          refl,
          after_option-Grown optcode option w s s' (iac ∷ optcode ∷ option ∷ []) g,
          after_option-Marks w s s' k,
        )

-- Nothing was sent but what the list names.
abbrev listed : ℕ → ℕ → List (ℕ × ℕ) → Bool
listed b k [] = false
listed b k ((a, o) ∷ done) = (b == a && k == o) || listed b k done

abbrev Clean : List (ℕ × ℕ) → Session → Type 0
Clean done s = (b k : ℕ) → listed b k done ≡ false → telnet_option_was_sent b k s ≡ false

module _ (os : Outside) (bounded : IsBounded os) (s0 : Session) (room : HasRoom s0 18) where
  -- One more command behind those that went out.
  step :
      (done : List (ℕ × ℕ)) (bs : List ℕ) (optcode option : ℕ) (s : Session)
      → Clean done s
      → Grown s0 bs s
      → listed optcode option done ≡ false
      → length bs ≤ 15
      → (ret : ℕ) × (s' : Session) × (send_init_telnet_option os optcode option s ≡ some (ret, s'))
        × Grown s0 (bs ++ iac ∷ optcode ∷ option ∷ []) s'
        × Clean ((optcode, option) ∷ done) s'
  step done bs optcode option s clean g new short =
      let some_room : HasRoom s0 (length bs + 3) = record {
        valid = room.valid;
        room = omega (arith, room.room);
      } in
      let (ret, s', e, g', m) =
        sends os bounded optcode option s (clean optcode option new)
          (Grown-HasRoom 3 some_room g) in
      (ret, s', e, Grown-trans g g', λ b k others. m b k (ground arith) ∙ clean b k (ground arith))

-- Any session as `telnet_init` sets it.
abbrev started : Session → Session
started s = record s {
  tnoptions = λ _. options_off;
  client_mode = ascii;
  server_mode = ascii;
  session_state = resume;
  break_signaled = false;
  ask_client_signature = true;
}

started-Clean : (s : Session) → Clean [] (started s)
unfolding telnet_option_was_sent
started-Clean s b k e = ground arith

-- With room for 18 bytes, `telnet_init` returns 0 and adds to the stream, whatever part of it the
-- socket takes: DO Com Port Control, WILL and DO binary, WILL echo, WILL and DO suppress go-ahead;
-- DO LOGOUT is not marked as sent by it.
pub telnet_init-stream :
    (os : Outside) (s : Session)
    → IsBounded os
    → HasRoom s 18
    → (s' : Session) × (telnet_init os s ≡ some (0, s'))
      × Grown s
          (iac ∷ do_ ∷ telopt_com_port_option ∷ iac ∷ will ∷ telopt_binary ∷ iac ∷ do_
            ∷ telopt_binary ∷ iac ∷ will ∷ telopt_echo ∷ iac ∷ will ∷ telopt_sga ∷ iac ∷ do_
            ∷ telopt_sga ∷ [])
          s'
      × (telnet_option_was_sent do_ telopt_logout s' ≡ false)
unfolding telnet_init
telnet_init-stream os s bounded room =
    let s0 : Session = started s in
    let r : HasRoom s0 18 = record { valid = room.valid; room = room.room } in
    let next = step os bounded s0 r in
    let (a1, s1, e1, g1, c1) =
      next [] [] do_ telopt_com_port_option s0 (started-Clean s) (Grown-refl s0 r.valid) refl
        (omega arith) in
    let l1 : List (ℕ × ℕ) = (do_, telopt_com_port_option) ∷ [] in
    let (a2, s2, e2, g2, c2) = next l1 _ will telopt_binary s1 c1 g1 refl (omega arith) in
    let l2 : List (ℕ × ℕ) = (will, telopt_binary) ∷ l1 in
    let (a3, s3, e3, g3, c3) = next l2 _ do_ telopt_binary s2 c2 g2 refl (omega arith) in
    let l3 : List (ℕ × ℕ) = (do_, telopt_binary) ∷ l2 in
    let (a4, s4, e4, g4, c4) = next l3 _ will telopt_echo s3 c3 g3 refl (omega arith) in
    let l4 : List (ℕ × ℕ) = (will, telopt_echo) ∷ l3 in
    let (a5, s5, e5, g5, c5) = next l4 _ will telopt_sga s4 c4 g4 refl (omega arith) in
    let l5 : List (ℕ × ℕ) = (will, telopt_sga) ∷ l4 in
    let (a6, s6, e6, g6, c6) = next l5 _ do_ telopt_sga s5 c5 g5 refl (omega arith) in
    rw (e1, e2, e3, e4, e5, e6)
      (
        s6,
        refl,
        record { grew = g6.grew; valid = g6.valid; same_size = g6.same_size; used = g6.used },
        c6 do_ telopt_logout refl,
      )
