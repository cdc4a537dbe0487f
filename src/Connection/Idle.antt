-- ===== src/Connection/Idle.antt =====
-- A connection that stays idle is told so and ends.
use serial_ip.Base.{
  ℕ, ◌+◌, ◌≤◌, ◌<◌, Bool, true, false, none, some, List, [], ◌∷◌, ◌++◌, ◌≡◌, refl, sym, ap, ◌∙◌,
  arith, length, append_assoc,
}
use serial_ip.Buffer.Append.{appended, appended-Holds, bfstrncat_lem}
use serial_ip.Buffer.Invariant.{Holds, contents}
use serial_ip.Buffer.{bfstrcat}
use serial_ip.Connection.{
  Settings, Connection, Round, select_timeout, idle_message, announce, say_goodbye, is_over,
  check_idle, react, end_round, handle_signals, round, next, goes_on, finished, waiting, run,
}
use serial_ip.Signals.{runs, child_pending_signal_handle, child_action}
use serial_ip.Telnet.Codes.{do_, telopt_logout}
use serial_ip.Telnet.Negotiation.{telnet_option_was_sent}
use serial_ip.Telnet.Negotiation.Answers.{command, send_telnet_option-Gives}
use serial_ip.Telnet.Negotiation.Stream.{
  stream, IsBounded, HasRoom, Grown, Grown-trans, Grown-HasRoom, write_out-Grown,
}
use serial_ip.Telnet.Session.{Session, Outside}

-- What the client is sent at the end: the message, and outside raw mode DO LOGOUT unless it was sent.
abbrev pub goodbye : Bool → Session → List ℕ
goodbye true s = idle_message
goodbye false s = idle_message ++ command do_ telopt_logout s

module _ (os : Outside) (bounded : IsBounded os) where
  announce-Grown :
      (s : Session)
      → HasRoom s (length idle_message + 3)
      → (t : Session) × (announce os s ≡ some t)
        × Grown s idle_message t
        × (t.tnoptions ≡ s.tnoptions)
  unfolding announce bfstrcat
  announce-Grown s h =
      let held : Holds s.out (contents s.out) = record { valid = h.valid; bytes = refl } in
      let fits : s.out.readp + length idle_message ≤ s.out.size = omega (arith, h.room) in
      let more = appended-Holds s.out (contents s.out) idle_message held fits in
      let s1 = record s { out = appended s.out idle_message } in
      let (g, k) = write_out-Grown os s1 bounded more.valid in
      (
        _,
        rw (bfstrncat_lem s.out (contents s.out) idle_message held fits) refl,
        Grown-trans {s = s} {t = s1} {front = idle_message} {bs = []}
            (record {
              grew =
                  ap (◌++◌ s.sent) more.bytes
                  ∙ sym (append_assoc s.sent (contents s.out) idle_message);
              valid = more.valid;
              same_size = refl;
              used = omega arith;
            })
            g,
        k.tnoptions,
      )

  command-same :
      (s t : Session)
      → t.tnoptions ≡ s.tnoptions
      → command do_ telopt_logout t ≡ command do_ telopt_logout s
  unfolding telnet_option_was_sent
  command-same s t e = rw e refl

  say_goodbye-Grown :
      (raw : Bool) (s : Session)
      → HasRoom s (length idle_message + 3)
      → (t : Session) × (say_goodbye os raw s ≡ some t) × Grown s (goodbye raw s) t
  unfolding say_goodbye
  say_goodbye-Grown true s h = let (t, e, g, same) = announce-Grown s h in (t, e, g)
  say_goodbye-Grown false s h =
      let (t, e, g, same) = announce-Grown s h in
      let (ret, u, e', g', agrees) =
        send_telnet_option-Gives do_ telopt_logout os t bounded (Grown-HasRoom 3 h g) in
      (u, rw (e, e') refl, rw (command-same s t same) at (Grown-trans g g'))

-- Nothing happens in a round: select times out, and no signal arrives.
pub record IsQuiet (r : Round) : Type 0 where
  pub timed_out : r.select ≡ select_timeout
  pub unsignaled : r.signal ≡ none

abbrev pub AllQuiet : List Round → Type 0
AllQuiet [] = Unit {0}
AllQuiet (r ∷ rs) = IsQuiet r × AllQuiet rs

-- The seconds that select took in some rounds.
abbrev pub seconds : List Round → ℕ
seconds [] = 0
seconds (r ∷ rs) = r.elapsed + seconds rs

-- The loop goes on, no signal is pending, and there is room for the farewell.
pub record IsLive (c : Connection) : Type 0 where
  pub logged_in : c.session.client_logged_in ≡ true
  pub awake : c.idle ≡ false
  pub sound : c.error ≡ 0
  pub unsignaled : c.globals.signo_child ≡ 0
  pub room : HasRoom c.session (length idle_message + 3)

over : (c : Connection) → c.idle ≡ true → goes_on c ≡ false
over c e = ground arith

-- A connection that is idle leaves the loop.
run-idle :
    (os : Outside) (conf : Settings) (rs : List Round) (c : Connection)
    → c.idle ≡ true
    → run os conf rs c ≡ finished c
unfolding run
run-idle os conf [] c e = rw (over c e) refl
run-idle os conf (r ∷ rs) c e = rw (over c e) refl

IsLive-goes_on : (c : Connection) → IsLive c → goes_on c ≡ true
IsLive-goes_on c h = rw (h.logged_in, h.awake, h.sound) refl

-- The two files agree on the break signal.
abbrev pub synced : Connection → Connection
synced c = record c {
  globals = record c.globals { break_signaled = c.session.break_signaled; signo_child = 0 };
}

end_round-quiet :
    (r : Round) (c : Connection)
    → r.signal ≡ none
    → c.error ≡ 0
    → c.globals.signo_child ≡ 0
    → end_round r c ≡ runs (synced c)
unfolding end_round handle_signals child_pending_signal_handle child_action
end_round-quiet r c q e n = rw (q, e, n) refl

-- A quiet round before the timer is over, and the one in which it is.
round-quiet :
    (os : Outside) (conf : Settings) (r : Round) (c : Connection)
    → IsQuiet r
    → IsLive c
    → is_over conf c.idle_cnt ≡ false
    → round os conf r c ≡ some (runs (synced (record c { idle_cnt = c.idle_cnt + r.elapsed })))
unfolding round check_idle react
round-quiet os conf r c q h young =
    rw (young, q.timed_out)
      (ap some (
        end_round-quiet r (record c { idle_cnt = c.idle_cnt + r.elapsed }) q.unsignaled h.sound
          h.unsignaled))

round-over :
    (os : Outside) (conf : Settings) (r : Round) (c : Connection) (s : Session)
    → IsQuiet r
    → IsLive c
    → is_over conf c.idle_cnt ≡ true
    → say_goodbye os conf.raw_flag c.session ≡ some s
    → round os conf r c
      ≡ some
          (runs (synced (record c { idle = true; session = s; idle_cnt = c.idle_cnt + r.elapsed })))
unfolding round check_idle react
round-over os conf r c s q h old bye =
    rw (old, bye, q.timed_out)
      (ap some (
        end_round-quiet r (record c { idle = true; session = s; idle_cnt = c.idle_cnt + r.elapsed })
          q.unsignaled h.sound h.unsignaled))

IsLive-synced : (c : Connection) (n : ℕ) → IsLive c → IsLive (synced (record c { idle_cnt = n }))
IsLive-synced c n h = record {
  logged_in = h.logged_in;
  awake = h.awake;
  sound = h.sound;
  unsignaled = refl;
  room = h.room;
}

-- The connection with `n` seconds of idleness.
abbrev pub idled : Connection → ℕ → Connection
idled c n = synced (record c { idle_cnt = n })

-- Before the timer is over the seconds of the rounds are added up, and nothing else happens.
pub run-idled :
    (os : Outside) (conf : Settings) (rs : List Round) (r : Round) (more : List Round)
    (c : Connection)
    → AllQuiet rs
    → IsQuiet r
    → IsLive c
    → c.idle_cnt + seconds rs < conf.idletimer
    → run os conf (rs ++ r ∷ more) c
      ≡ run os conf more (idled c (c.idle_cnt + seconds rs + r.elapsed))
unfolding run next
run-idled os conf [] r more c q qr h early =
    let young : is_over conf c.idle_cnt ≡ false = ground arith in
    rw (IsLive-goes_on c h, round-quiet os conf r c qr h young)
      (ap (λ n. run os conf more (idled c n)) (omega arith))
run-idled os conf (x ∷ xs) r more c q qr h early =
    let young : is_over conf c.idle_cnt ≡ false = ground arith in
    rw (IsLive-goes_on c h, round-quiet os conf x c q.0 h young)
      (run-idled os conf xs r more (idled c (c.idle_cnt + x.elapsed)) q.1 qr
          (IsLive-synced c (c.idle_cnt + x.elapsed) h) (omega (arith, early))
        ∙ ap (λ n. run os conf more (idled c n)) (omega arith))

-- The round in which the timer is found to be over is the last one.
run-over :
    (os : Outside) (conf : Settings) (r : Round) (more : List Round) (c : Connection)
    → IsBounded os
    → 0 < conf.idletimer
    → IsQuiet r
    → IsLive c
    → conf.idletimer ≤ c.idle_cnt
    → (d : Connection) × (run os conf (r ∷ more) c ≡ finished d)
      × (d.idle ≡ true)
      × (stream d.session ≡ stream c.session ++ goodbye conf.raw_flag c.session)
      × (d.to_serial ≡ c.to_serial)
      × (d.to_socket ≡ c.to_socket)
      × (d.globals.signo_child ≡ 0)
unfolding run next
run-over os conf r more c bounded timer q h late =
    let old : is_over conf c.idle_cnt ≡ true = ground arith in
    let (s, bye, grown) = say_goodbye-Grown os bounded conf.raw_flag c.session h.room in
    let d = synced (record c { idle = true; session = s; idle_cnt = c.idle_cnt + r.elapsed }) in
    (
      d,
      rw (IsLive-goes_on c h, round-over os conf r c s q h old bye) (run-idle os conf more d refl),
      refl,
      grown.grew,
      refl,
      refl,
      refl,
    )

-- Both, and no signal is pending at the end.
pub run-quiet_lem :
    (os : Outside) (conf : Settings) (rs : List Round) (r last : Round) (more : List Round)
    (c : Connection)
    → IsBounded os
    → AllQuiet rs
    → IsQuiet r
    → IsQuiet last
    → IsLive c
    → c.idle_cnt + seconds rs < conf.idletimer
    → conf.idletimer ≤ c.idle_cnt + seconds rs + r.elapsed
    → (run os conf (rs ++ r ∷ []) c ≡ waiting (idled c (c.idle_cnt + seconds rs + r.elapsed)))
      × (d : Connection) × (run os conf (rs ++ r ∷ last ∷ more) c ≡ finished d)
      × (d.idle ≡ true)
      × (stream d.session ≡ stream c.session ++ goodbye conf.raw_flag c.session)
      × (d.to_serial ≡ c.to_serial)
      × (d.to_socket ≡ c.to_socket)
      × (d.globals.signo_child ≡ 0)
unfolding run
run-quiet_lem os conf rs r last more c bounded q qr ql h early late =
    let n = c.idle_cnt + seconds rs + r.elapsed in
    let live = IsLive-synced c n h in
    let (d, ends, idle, sent, device, client, settled) =
      run-over os conf last more (idled c n) bounded (omega (arith, early)) ql live late in
    (
      run-idled os conf rs r [] c q qr h early ∙ rw (IsLive-goes_on (idled c n) live) refl,
      d,
      run-idled os conf rs r (last ∷ more) c q qr h early ∙ ends,
      idle,
      sent,
      device,
      client,
      settled,
    )

-- When a live connection has room for the farewell and select only times out, each time after at
-- least the time it was given, and no signal comes, then as long as the idle seconds stay below
-- `idletimer`, and in the round `r` whose wait takes them to it, the connection goes on and only
-- counts the seconds waited; in the round behind `r` the loop is left: the connection is idle, the
-- message and, outside raw mode, DO LOGOUT unless it was sent before, whatever the setting of the
-- configuration for that is, were added to the stream for the client, and nothing else was passed
-- on.
pub run-quiet :
    (os : Outside) (conf : Settings) (rs : List Round) (r last : Round) (more : List Round)
    (c : Connection)
    → IsBounded os
    → AllQuiet rs
    → IsQuiet r
    → IsQuiet last
    → IsLive c
    → c.idle_cnt + seconds rs < conf.idletimer
    → conf.idletimer ≤ c.idle_cnt + seconds rs + r.elapsed
    → (run os conf (rs ++ r ∷ []) c ≡ waiting (idled c (c.idle_cnt + seconds rs + r.elapsed)))
      × (d : Connection) × (run os conf (rs ++ r ∷ last ∷ more) c ≡ finished d)
      × (d.idle ≡ true)
      × (stream d.session ≡ stream c.session ++ goodbye conf.raw_flag c.session)
      × (d.to_serial ≡ c.to_serial)
      × (d.to_socket ≡ c.to_socket)
run-quiet os conf rs r last more c bounded q qr ql h early late =
    let (waits, d, ends, idle, sent, device, client, settled) =
      run-quiet_lem os conf rs r last more c bounded q qr ql h early late in
    (waits, d, ends, idle, sent, device, client)
