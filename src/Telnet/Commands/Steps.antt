-- ===== src/Telnet/Commands/Steps.antt =====
-- One round of the loop of `process_telnet_options` at a well-formed command.
use serial_ip.Base.{
  ℕ, suc, ◌+◌, ◌-◌, ◌≤◌, ◌<◌, true, false, Option, none, some, List, [], ◌∷◌, ◌++◌, ◌≡◌, ◌≢◌, refl,
  sym, ap, ◌∙◌, inl, inr, append_assoc, ◌==◌, ◌>>=◌, length, length-append, arith, ltb_of_lt,
  Bool-cases, append-nil,
}
use serial_ip.Base.Memory.{load, window, Spans, window-split}
use serial_ip.Buffer.{Buffer, limit}
use serial_ip.Buffer.Edit.{bfrmstr-Removed}
use serial_ip.Buffer.Invariant.{Holds}
use serial_ip.Telnet.Codes.{iac, sb, se, telopt_com_port_option}
use serial_ip.Telnet.Commands.{Round, remove, on_iac, on_proposal, on_suboption, on_command}
use serial_ip.Telnet.Commands.Items.{
  Command, escaped, proposal, suboption, short, body, datum, effect, IsCommand, is_proposal,
}
use serial_ip.Telnet.Cpc.{process_telnet_cpc_suboption, dispatch}
use serial_ip.Telnet.Cpc.Frame.{cpc_command-frame}
use serial_ip.Telnet.Escaping.Doubled.{doubled}
use serial_ip.Telnet.Negotiation.{respond_telnet_option}
use serial_ip.Telnet.Scan.{mystrchr-Split, Absent}
use serial_ip.Telnet.Session.{Session, Outside}

-- The round that starts at a command `bs`, `done` being passed already and `left` behind it.
abbrev pub round : Buffer → List ℕ → List ℕ → Session → Round
round b done here s = record {
  buf = b;
  at = b.writep + length done;
  size = length here;
  session = s;
}

-- The round went on to `left`, having kept `done`.
pub record Stepped (b : Buffer) (done left : List ℕ) (s : Session) (out : Option Round)
    : Type 0 where
  pub next : Round
  pub returns : out ≡ some next
  pub holds : Holds next.buf (done ++ left)
  pub same_size : next.buf.size ≡ b.size
  pub size : next.size ≡ length left
  pub at : 0 < length left → next.at ≡ next.buf.writep + length done
  pub session : next.session ≡ s

-- `bfrmstr` of a whole command.
removed :
    (b : Buffer) (done here left : List ℕ) (s : Session) (n : ℕ)
    → Holds b (done ++ (here ++ left))
    → 0 < length here
    → n ≡ length here
    → Stepped b done left s (remove n (round b done (here ++ left) s))
removed b done here left s n h p e =
    let r = bfrmstr-Removed b done here left h p in
    let len : length (here ++ left) - length here ≡ length left =
      omega (arith, length-append here left) in
    rw (e, r.returns)
      (record {
        next = record {
          buf = r.after;
          at = b.writep + length done;
          size = length (here ++ left) - length here;
          session = s;
        };
        returns = refl;
        holds = r.holds;
        same_size = r.same_size;
        size = len;
        at = λ q. omega (arith, r.same_start, length-append done left);
        session = refl;
      })

-- The byte behind a prefix, read where the code reads it.
byte :
    (b : Buffer) (done : List ℕ) (x : ℕ) (xs : List ℕ) (p : ℕ)
    → Holds b (done ++ x ∷ xs)
    → p ≡ b.writep + length done
    → load (limit b) b.mem p ≡ some x
byte b done x xs p h e =
    let (l, r, n) = window-split b.mem done (x ∷ xs) b.writep b.nbuffered h.bytes in
    let there : b.mem (b.writep + length done) ≡ x = cc in
    let inside : b.writep + length done < limit b = omega (arith, h.valid) in
    rw (e, ltb_of_lt inside, there)

acted {ℓ} :
    {A : Type ℓ} (o : Option (A × Session)) (s' : Session)
    → (o >>= λ (_, t). some t) ≡ some s'
    → (ret : A) × (o ≡ some (ret, s'))
acted none s' e = absurd (cc)
acted (some (ret, t)) s' e = let same : t ≡ s' = cc in (ret, rw same)

module _ (os : Outside) (b : Buffer) (done left : List ℕ) (s s' : Session) where
  first_byte :
      (k : Command) (c : ℕ) (cs : List ℕ)
      → body k ≡ c ∷ cs
      → Holds b (done ++ (iac ∷ (body k ++ left)))
      → load (limit b) b.mem (b.writep + length done + 1) ≡ some c
  first_byte k c cs e h =
      byte b (done ++ iac ∷ []) c (cs ++ left) (b.writep + length done + 1)
        (rw append_assoc (rw e at h)) (omega (arith, length-append done (iac ∷ [])))

  on_escaped :
      Holds b (done ++ (iac ∷ (body escaped ++ left)))
      → Stepped b
          (done ++ iac ∷ [])
          left
          s
          (on_command os (round b done (iac ∷ (body escaped ++ left)) s))
  unfolding on_command on_iac
  on_escaped h =
      let r = bfrmstr-Removed b done (iac ∷ []) (iac ∷ left) h (omega arith) in
      let len = length-append done (iac ∷ []) in
      rw (first_byte escaped iac [] refl h, r.returns)
        (record {
          next = record {
            buf = r.after;
            at = b.writep + length done + 1;
            size = suc (suc (length left)) - 2;
            session = s;
          };
          returns = refl;
          holds = rw append_assoc r.holds;
          same_size = r.same_size;
          size = omega arith;
          at = λ q. omega (arith, r.same_start, length-append done (iac ∷ left));
          session = refl;
        })

  on_short :
      (c : ℕ)
      → IsCommand (short c)
      → Holds b (done ++ (iac ∷ (body (short c) ++ left)))
      → Stepped b done left s (on_command os (round b done (iac ∷ (body (short c) ++ left)) s))
  unfolding on_command
  on_short c w h =
      rw (first_byte (short c) c [] refl h, w.0, w.1, w.2)
        (removed b done (iac ∷ c ∷ []) left s 2 h (omega arith) refl)

  not_iac : (optcode : ℕ) → is_proposal optcode ≡ true → optcode == iac ≡ false
  not_iac optcode w = ground arith

  on_proposal_lem :
      (optcode option : ℕ)
      → IsCommand (proposal optcode option)
      → Holds b (done ++ (iac ∷ (body (proposal optcode option) ++ left)))
      → effect os (proposal optcode option) s ≡ some s'
      → Stepped b done left s'
          (on_command os (round b done (iac ∷ (body (proposal optcode option) ++ left)) s))
  unfolding on_command on_proposal
  on_proposal_lem optcode option w h e =
      let second : load (limit b) b.mem (b.writep + length done + 2) ≡ some option =
        byte b (done ++ iac ∷ optcode ∷ []) option left (b.writep + length done + 2)
          (rw append_assoc h) (omega (arith, length-append done (iac ∷ optcode ∷ []))) in
      rw
        (
          first_byte (proposal optcode option) optcode (option ∷ []) refl h,
          not_iac optcode w,
          w,
          second,
        )
        (let (ret, acts) = acted (respond_telnet_option os optcode option s) s' e in
          rw acts (removed b done (iac ∷ optcode ∷ option ∷ []) left s' 3 h (omega arith) refl))

  -- The bytes of a suboption behind its option code, up to SE.
  abbrev inner : ℕ → List ℕ → List ℕ
  inner code content = code ∷ (doubled content ++ iac ∷ [])

  inner-whole :
      (code : ℕ) (content : List ℕ)
      → inner code content ++ se ∷ left ≡ code ∷ (doubled content ++ iac ∷ se ∷ left)
  inner-whole code content = ap (◌∷◌ code) (append_assoc (doubled content) (iac ∷ []) (se ∷ left))

  inner-Absent :
      (code : ℕ) (content : List ℕ) → code ≢ se → Absent se content → Absent se (inner code content)
  inner-Absent code content c a = (c, with_iac content a)
    where
      with_iac : (xs : List ℕ) → Absent se xs → Absent se (doubled xs ++ iac ∷ [])
      with_iac [] a = (omega arith, tt)
      with_iac (x ∷ xs) a = elim (Bool-cases (x == iac)) [
        | inl e ↦ rw e (omega arith, (omega arith, with_iac xs a.1))
        | inr e ↦ rw e (a.0, with_iac xs a.1)
      ]

  suboption-body :
      (code : ℕ) (content : List ℕ)
      → iac ∷ (body (suboption code content) ++ left)
        ≡ (iac ∷ sb ∷ telopt_com_port_option ∷ []) ++ (inner code content ++ se ∷ left)
  suboption-body code content =
      ap (λ ys. iac ∷ sb ∷ telopt_com_port_option ∷ code ∷ ys)
        (append_assoc (doubled content) (iac ∷ se ∷ []) left
          ∙ sym (append_assoc (doubled content) (iac ∷ []) (se ∷ left)))

  spanned :
      (code : ℕ) (content : List ℕ)
      → Holds b (done ++ (iac ∷ (body (suboption code content) ++ left)))
      → let ys = inner code content ++ se ∷ left in
        Spans b.mem (b.writep + length done + 3) ys
        × (b.writep + length done + 3 + length ys ≤ limit b)
  spanned code content h =
      let ys : List ℕ = inner code content ++ se ∷ left in
      let front : List ℕ = done ++ iac ∷ sb ∷ telopt_com_port_option ∷ [] in
      let split : done ++ (iac ∷ (body (suboption code content) ++ left)) ≡ front ++ ys =
        ap (◌++◌ done) (suboption-body code content)
        ∙ sym (append_assoc done (iac ∷ sb ∷ telopt_com_port_option ∷ []) ys) in
      let (p, q, n) = window-split b.mem front ys b.writep b.nbuffered (h.bytes ∙ split) in
      let len = length-append done (iac ∷ sb ∷ telopt_com_port_option ∷ []) in
      let at : b.writep + length front ≡ b.writep + length done + 3 = omega arith in
      (rw at at q, omega (arith, h.valid))

  on_frame :
      (code : ℕ) (content optstr : List ℕ)
      → optstr ≡ inner code content ++ se ∷ left
      → Absent se content
      → length (doubled content) ≤ 255
      → process_telnet_cpc_suboption os optstr s ≡ dispatch os code content s
  unfolding process_telnet_cpc_suboption
  on_frame code content optstr e a l =
      rw (e, inner-whole code content, cpc_command-frame code content left a l)

  on_suboption_lem :
      (code : ℕ) (content : List ℕ)
      → IsCommand (suboption code content)
      → Holds b (done ++ (iac ∷ (body (suboption code content) ++ left)))
      → effect os (suboption code content) s ≡ some s'
      → Stepped b done left s'
          (on_command os (round b done (iac ∷ (body (suboption code content) ++ left)) s))
  unfolding on_command on_suboption
  on_suboption_lem code content w h e =
      let (code_ok, a, l) = w in
      let second : load (limit b) b.mem (b.writep + length done + 2) ≡ some telopt_com_port_option =
        byte b (done ++ iac ∷ sb ∷ []) telopt_com_port_option
          (code ∷ ((doubled content ++ iac ∷ se ∷ []) ++ left)) (b.writep + length done + 2)
          (rw append_assoc h) (omega (arith, length-append done (iac ∷ sb ∷ []))) in
      let first =
        first_byte (suboption code content) sb
          (telopt_com_port_option ∷ code ∷ (doubled content ++ iac ∷ se ∷ [])) refl h in
      let here : List ℕ = iac ∷ body (suboption code content) in
      let ys : List ℕ = inner code content ++ se ∷ left in
      let from : ℕ = b.writep + length done + 3 in
      let (spans, fits) = spanned code content h in
      let size : length (iac ∷ (body (suboption code content) ++ left)) - 3 ≡ length ys =
        omega (arith, ap length (suboption-body code content)) in
      let found =
        mystrchr-Split (limit b) b.mem from se (inner code content) left spans fits
          (inner-Absent code content code_ok a) in
      let count : from + length (inner code content) - (b.writep + length done) + 1 ≡ length here =
        omega (
          arith,
          length-append (doubled content) (iac ∷ []),
          length-append (doubled content) (iac ∷ se ∷ []),
        ) in
      let acts = on_frame code content (window b.mem from (length ys)) spans a l in
      rw (first, second, size, acts, e, found)
        (removed b done here left s'
          (from + length (inner code content) - (b.writep + length done) + 1) h (omega arith) count)

  -- One round at a well-formed command keeps what is passed and the datum, drops the command, and does
  -- to the session what the command says.
  pub on_command-Stepped :
      (k : Command)
      → IsCommand k
      → Holds b (done ++ (iac ∷ (body k ++ left)))
      → effect os k s ≡ some s'
      → Stepped b
          (done ++ datum k)
          left
          s'
          (on_command os (round b done (iac ∷ (body k ++ left)) s))
  on_command-Stepped escaped w h e = let same : s' ≡ s = cc in rw same (on_escaped h)
  on_command-Stepped (short c) w h e =
      let same : s' ≡ s = cc in rw (append-nil done, same) (on_short c w h)
  on_command-Stepped (proposal optcode option) w h e =
      rw append-nil (on_proposal_lem optcode option w h e)
  on_command-Stepped (suboption code content) w h e =
      rw append-nil (on_suboption_lem code content w h e)
