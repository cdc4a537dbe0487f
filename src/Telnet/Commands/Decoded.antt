-- ===== src/Telnet/Commands/Decoded.antt =====
-- What `process_telnet_options` makes of a well-formed stream.
use serial_ip.Base.{
  ℕ, zero, suc, ◌+◌, ◌-◌, ◌≤◌, ◌<◌, false, Option, none, some, List, [], ◌∷◌, ◌++◌, ◌≡◌, refl, sym,
  subst, ap, ◌∙◌, inl, inr, append_assoc, ltb, if◌then◌else◌, ◌>>=◌, length, length-append, arith,
  ltb_of_le, Bool-cases, Option-cases,
}
use serial_ip.Base.Memory.{Spans, window-split}
use serial_ip.Buffer.{Buffer, limit}
use serial_ip.Buffer.Invariant.{Holds, length-Holds}
use serial_ip.Telnet.Codes.{iac}
use serial_ip.Telnet.Commands.{Round, next_command, command_loop, process_telnet_options}
use serial_ip.Telnet.Commands.Items.{
  Command, Item, body, datum, effect, IsCommand, AreItems, encoded, decoded, run, next_item,
  Plain-short, body-length,
}
use serial_ip.Telnet.Commands.Steps.{round, on_command-Stepped}
use serial_ip.Telnet.Scan.{Absent, mystrchr, mystrchr-Absent, mystrchr-Split}
use serial_ip.Telnet.Session.{Session, Outside}

-- The loop ended with the bytes `xs` in the buffer and the session `s`.
record Ended (b : Buffer) (xs : List ℕ) (s : Session) (out : Option Round) : Type 0 where
  last : Round
  returns : out ≡ some last
  holds : Holds last.buf xs
  same_size : last.buf.size ≡ b.size
  session : last.session ≡ s

-- The rounds from a command on.
abbrev Rounds : Outside → ℕ → Type 0
Rounds os fuel =
    (b : Buffer) (done : List ℕ) (k : Command) (items : List Item) (s s' : Session)
    → IsCommand k
    → AreItems items
    → Holds b (done ++ (iac ∷ (body k ++ encoded items)))
    → effect os k s >>= run os items ≡ some s'
    → length (encoded items) + 2 ≤ fuel
    → Ended b (done ++ (datum k ++ decoded items)) s'
        (command_loop os fuel (round b done (iac ∷ (body k ++ encoded items)) s))

-- The bytes of a buffer behind `xs` lie where the scan looks for them.
behind :
    {b : Buffer} (xs ys : List ℕ)
    → Holds b (xs ++ ys)
    → Spans b.mem (b.writep + length xs) ys × (b.writep + length xs + length ys ≤ limit b)
behind {b} xs ys h =
    let (p, q, r) = window-split b.mem xs ys b.writep b.nbuffered h.bytes in
    (q, omega (arith, h.valid))

module _ (os : Outside) (fuel : ℕ) (rounds : Rounds os fuel) where
  -- The search that finds the next command behind the data `pre`.
  at_command :
      (b : Buffer) (done pre : List ℕ) (k : Command) (items : List Item) (s s' : Session)
      → Absent iac pre
      → IsCommand k
      → AreItems items
      → Holds b (done ++ (pre ++ iac ∷ (body k ++ encoded items)))
      → effect os k s >>= run os items ≡ some s'
      → length (pre ++ iac ∷ (body k ++ encoded items)) ≤ fuel
      → let r = round b done (pre ++ iac ∷ (body k ++ encoded items)) s in
        Ended b
          (done ++ (pre ++ (datum k ++ decoded items)))
          s'
          (mystrchr (limit b) b.mem r.at iac r.size >>= next_command (command_loop os fuel) r)
  unfolding next_command
  at_command b done pre k items s s' a kw iw h e f =
      let here : List ℕ = iac ∷ (body k ++ encoded items) in
      let (spans, fits) = behind done (pre ++ here) h in
      let len = length-append pre here in
      let len_here = length-append (body k) (encoded items) in
      let some_body = body-length k in
      let at : b.writep + length done + length pre ≡ b.writep + length (done ++ pre) =
        omega (arith, length-append done pre) in
      let left : length (pre ++ here)
            - (b.writep + length done + length pre - (b.writep + length done))
          ≡ length here =
        omega arith in
      let enough : ltb (length here) 2 ≡ false = ltb_of_le (omega arith) in
      rw
        (
          mystrchr-Split (limit b) b.mem (b.writep + length done) iac pre (body k ++ encoded items)
              spans fits a,
          left,
          enough,
          at,
        )
        (rw (append_assoc done pre (datum k ++ decoded items)) at (
          rounds b (done ++ pre) k items s s' kw iw (rw (append_assoc done pre here) h) e
            (omega arith)))

  -- The search behind what is passed, and the rounds that it leads to.
  searched :
      (b : Buffer) (done : List ℕ) (items : List Item) (s s' : Session)
      → AreItems items
      → Holds b (done ++ encoded items)
      → run os items s ≡ some s'
      → length (encoded items) ≤ fuel
      → let r = round b done (encoded items) s in
        Ended b
          (done ++ decoded items)
          s'
          (mystrchr (limit b) b.mem r.at iac r.size >>= next_command (command_loop os fuel) r)
  unfolding next_command
  searched b done items s s' w h e f = elim (next_item items w) [
    | inl p ↦
        let (l, r) = behind done (encoded items) h in
        let acts : some s ≡ some s' = sym (p.acts os s) ∙ e in
        let same : s ≡ s' = cc in
        rw
          (mystrchr-Absent (limit b) b.mem (b.writep + length done) iac (encoded items) l r
            p.absent)
          (record {
            last = round b done (encoded items) s;
            returns = refl;
            holds = rw p.bytes at h;
            same_size = refl;
            session = same;
          })
    | inr g ↦
        rw (g.bytes, g.data_)
          (at_command b done g.before g.at g.behind s s' g.absent g.first_well g.rest_well
            (rw g.bytes at h) (sym (g.acts os s) ∙ e) (rw g.bytes at f))
  ]

  -- What the loop does with a round that is over.
  continued :
      (done : List ℕ) (items : List Item) (r : Round) (s s' : Session)
      → AreItems items
      → Holds r.buf (done ++ encoded items)
      → r.size ≡ length (encoded items)
      → (0 < length (encoded items) → r.at ≡ r.buf.writep + length done)
      → r.session ≡ s
      → run os items s ≡ some s'
      → length (encoded items) ≤ fuel
      → Ended r.buf (done ++ decoded items) s' (
          if ltb r.size 2
          then some r
          else mystrchr (limit r.buf) r.buf.mem r.at iac r.size
            >>= next_command (command_loop os fuel) r)
  continued done items r s s' w h size at session e f = elim (Bool-cases (ltb r.size 2)) [
    | inl over ↦
        let small : length (encoded items) ≤ 1 = ground arith in
        let p = Plain-short items w small in
        let acts : some s ≡ some s' = sym (p.acts os s) ∙ e in
        let same : s ≡ s' = cc in
        rw over (record {
          last = r;
          returns = refl;
          holds = rw p.bytes at h;
          same_size = refl;
          session = session ∙ same;
        })
    | inr more ↦
        let some_left : 0 < length (encoded items) = ground arith in
        let here : r ≡ round r.buf done (encoded items) s =
          same_round (at some_left) size session in
        rw more (
          subst
            (λ t. Ended r.buf (done ++ decoded items) s' (
              mystrchr (limit r.buf) r.buf.mem t.at iac t.size
              >>= next_command (command_loop os fuel) t))
            (sym here) (searched r.buf done items s s' w h e f))
  ]
    where
      same_round :
          r.at ≡ r.buf.writep + length done
          → r.size ≡ length (encoded items)
          → r.session ≡ s
          → r ≡ round r.buf done (encoded items) s
      same_round p q t = λ i. record { buf = r.buf; at = p i; size = q i; session = t i }

no_result : {A : Type 0} {a : A} → none ≡ some a → ⊥
no_result e = cc

command_loop-Ended : (os : Outside) (fuel : ℕ) → Rounds os fuel
unfolding command_loop
command_loop-Ended os zero b done k items s s' kw iw h e f = absurd (omega arith)
command_loop-Ended os (suc fuel) b done k items s s' kw iw h e f =
    elim (Option-cases (effect os k s)) [
      | inl fault ↦ absurd (no_result (rw fault at e))
      | inr (s1, e1) ↦
          let st = on_command-Stepped os b done (encoded items) s s1 k kw h e1 in
          let out =
            continued os fuel (command_loop-Ended os fuel) (done ++ datum k) items st.next s1 s' iw
              st.holds st.size st.at st.session (rw e1 at e) (omega arith) in
          rw (st.returns, sym (append_assoc done (datum k) (decoded items)))
            (record {
              last = out.last;
              returns = out.returns;
              holds = out.holds;
              same_size = out.same_size ∙ st.same_size;
              session = out.session;
            })
    ]

-- When the buffer holds the bytes of a well-formed stream (data, escaped IACs, negotiations, other
-- two-byte commands and Com Port Control suboptions without an SE in them, at most 255 bytes long
-- with their IACs doubled) and its commands, taken one after the other, lead from session `s` to
-- `s'`, `process_telnet_options` returns: the buffer, of the same size, then validly holds the
-- data of the stream, in order, and the session is `s'`.
pub process_telnet_options-decoded :
    (os : Outside) (b : Buffer) (items : List Item) (s s' : Session)
    → AreItems items
    → Holds b (encoded items)
    → run os items s ≡ some s'
    → (after : Buffer) × (process_telnet_options os b s ≡ some (after, s'))
      × Holds after (decoded items)
      × (after.size ≡ b.size)
unfolding process_telnet_options
process_telnet_options-decoded os b items s s' w h e =
    let len = length-Holds h in
    let out =
      searched os (suc b.nbuffered) (command_loop-Ended os (suc b.nbuffered)) b [] items s s' w h e
        (omega arith) in
    let here : b.writep + 0 ≡ b.writep = omega arith in
    let found : (mystrchr (limit b) b.mem b.writep iac b.nbuffered
          >>= next_command (command_loop os (suc b.nbuffered))
              (record { buf = b; at = b.writep; size = b.nbuffered; session = s }))
        ≡ some out.last =
      rw here at (rw len at out.returns) in
    (
      out.last.buf,
      ap (λ o. o >>= λ r. some (r.buf, r.session)) found
          ∙ ap (λ u. some (out.last.buf, u)) out.session,
      out.holds,
      out.same_size,
    )
