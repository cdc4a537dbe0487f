-- ===== src/Telnet/Negotiation/Stream.antt =====
-- The bytes a session has produced for the client, taken by the socket or still buffered, and what
-- an append adds to them.
use serial_ip.Base.{
  ℕ, ◌+◌, ◌≤◌, Bool, Option, some, List, [], ◌++◌, ◌≡◌, refl, sym, ap, ◌∙◌, append_assoc,
  append-nil, arith, length, take, length-append, take-append-drop,
}
use serial_ip.Buffer.{Buffer}
use serial_ip.Buffer.Invariant.{IsValid, Holds, contents}
use serial_ip.Buffer.Drain.{IsBoundedWrite, write_from_buffer_to_fd-Holds, offer, count}
use serial_ip.Buffer.Append.{appended, appended-Holds, bfstrncat_lem}
use serial_ip.Telnet.Session.{
  Session, Outside, SessionState, suspend, resume, write_out, written, append_and_write,
}

-- Everything written for the client, oldest byte first.
abbrev pub stream : Session → List ℕ
stream s = s.sent ++ contents s.out

-- The socket takes at most what it is offered, at each write.
abbrev pub IsBounded : Outside → Type 0
IsBounded os = (k : ℕ) → IsBoundedWrite (os.write k)

-- The buffer is well formed and has room for `n` more bytes.
pub record HasRoom (s : Session) (n : ℕ) : Type 0 where
  pub valid : IsValid s.out
  pub room : s.out.readp + n ≤ s.out.size

-- Nothing changed but the buffer and the socket.
pub record Kept (s s' : Session) : Type 0 where
  pub tnoptions : s'.tnoptions ≡ s.tnoptions
  pub client_mode : s'.client_mode ≡ s.client_mode
  pub server_mode : s'.server_mode ≡ s.server_mode
  pub session_state : s'.session_state ≡ s.session_state
  pub ask_client_signature : s'.ask_client_signature ≡ s.ask_client_signature
  pub client_logged_in : s'.client_logged_in ≡ s.client_logged_in
  pub line : s'.line ≡ s.line

-- The stream grew by `bs`, and at most front much room was used.
pub record Grown (s : Session) (bs : List ℕ) (s' : Session) : Type 0 where
  pub grew : stream s' ≡ stream s ++ bs
  pub valid : IsValid s'.out
  pub same_size : s'.out.size ≡ s.out.size
  pub used : s'.out.readp ≤ s.out.readp + length bs

pub Kept-trans : {s t u : Session} → Kept s t → Kept t u → Kept s u
Kept-trans h k = record {
  tnoptions = k.tnoptions ∙ h.tnoptions;
  client_mode = k.client_mode ∙ h.client_mode;
  server_mode = k.server_mode ∙ h.server_mode;
  session_state = k.session_state ∙ h.session_state;
  ask_client_signature = k.ask_client_signature ∙ h.ask_client_signature;
  client_logged_in = k.client_logged_in ∙ h.client_logged_in;
  line = k.line ∙ h.line;
}

pub Grown-trans :
    {s t u : Session} {front bs : List ℕ} → Grown s front t → Grown t bs u → Grown s (front ++ bs) u
Grown-trans {s} {front} {bs} g h = record {
  grew = h.grew ∙ ap (λ ys. ys ++ bs) g.grew ∙ append_assoc (stream s) front bs;
  valid = h.valid;
  same_size = h.same_size ∙ g.same_size;
  used = omega (arith, g.used, h.used, length-append front bs);
}

-- What is left of the room.
pub Grown-HasRoom :
    {s t : Session} {front : List ℕ} (n : ℕ)
    → HasRoom s (length front + n)
    → Grown s front t
    → HasRoom t n
Grown-HasRoom n r g = record { valid = g.valid; room = omega (arith, r.room, g.used, g.same_size) }

Kept-refl :
    (s : Session) (b : Buffer) (bs : List ℕ) (n : ℕ)
    → Kept s (record s { out = b; sent = bs; writes = n })
Kept-refl s b bs n = record {
  tnoptions = refl;
  client_mode = refl;
  server_mode = refl;
  session_state = refl;
  ask_client_signature = refl;
  client_logged_in = refl;
  line = refl;
}

-- Writing the buffer to the socket moves bytes along the stream.
pub write_out-Grown :
    (os : Outside) (s : Session)
    → IsBounded os
    → IsValid s.out
    → Grown s [] (write_out os s).1 × Kept s (write_out os s).1
unfolding write_out
write_out-Grown os s bounded v =
    let (after, e, held, same, back) =
      write_from_buffer_to_fd-Holds (os.write s.writes) s.out (contents s.out) (bounded s.writes)
        (record { valid = v; bytes = refl }) in
    let n = count (offer (os.write s.writes) (contents s.out)) in
    rw e (
      record {
        grew =
            append_assoc s.sent (take n (contents s.out)) (contents after)
            ∙ ap (λ ys. s.sent ++ (take n (contents s.out) ++ ys)) held.bytes
            ∙ ap (◌++◌ s.sent) (take-append-drop n (contents s.out))
            ∙ sym (append-nil (stream s));
        valid = held.valid;
        same_size = same;
        used = omega arith;
      },
      Kept-refl s after (s.sent ++ take n (contents s.out)) (s.writes + 1),
    )

written-Grown :
    (os : Outside) (size : ℕ) (s : Session) (state : SessionState)
    → IsBounded os
    → IsValid s.out
    → Grown s [] (written os size state s).1 × Kept s (written os size state s).1
unfolding written
written-Grown os size s suspend bounded v = (
  record { grew = sym (append-nil (stream s)); valid = v; same_size = refl; used = omega arith },
  Kept-refl s s.out s.sent s.writes,
)
written-Grown os size s resume bounded v = write_out-Grown os s bounded v

-- With room for the string, appending it and writing the buffer adds exactly the string to the
-- stream of bytes sent or still buffered, whatever part of it the socket takes, keeps the buffer
-- valid and of its size, and changes nothing else of the session.
pub append_and_write-Grown :
    (os : Outside) (optstr : List ℕ) (s : Session)
    → IsBounded os
    → HasRoom s (length optstr)
    → (w : Option Bool) × (s' : Session) × (append_and_write os optstr s ≡ some (w, s'))
      × Grown s optstr s'
      × Kept s s'
unfolding append_and_write
append_and_write-Grown os optstr s bounded h =
    let held : Holds s.out (contents s.out) = record { valid = h.valid; bytes = refl } in
    let more = appended-Holds s.out (contents s.out) optstr held h.room in
    let s1 = record s { out = appended s.out optstr } in
    let (g, k) = written-Grown os (length optstr) s1 s.session_state bounded more.valid in
    (
      out.0,
      out.1,
      rw (bfstrncat_lem s.out (contents s.out) optstr held h.room),
      rw append-nil at (
          Grown-trans {s = s} {t = s1} {front = optstr} {bs = []}
            (record {
              grew =
                  ap (◌++◌ s.sent) more.bytes ∙ sym (append_assoc s.sent (contents s.out) optstr);
              valid = more.valid;
              same_size = refl;
              used = omega arith;
            })
            g),
      Kept-trans (Kept-refl s (appended s.out optstr) s.sent s.writes) k,
    )
  where
    out : Option Bool × Session
    out = written os (length optstr) s.session_state (record s { out = appended s.out optstr })
