-- ===== src/NetworkController/Flow.antt =====
-- What the moves of network_controller.c leave in the buffers.
use serial_ip.Base.{
  ℕ, zero, suc, ◌+◌, ◌≤◌, ◌<◌, false, Option, none, some, List, [], ◌∷◌, ◌++◌, ◌≡◌, refl, sym,
  subst, ap, ◌∙◌, inl, inr, ◌==◌, if◌then◌else◌, length, length-append, take, drop, arith,
  ltb_of_lt, Bool-cases,
}
use serial_ip.Base.Integer.{ℤ, pos}
use serial_ip.Base.Memory.{Memory, window}
use serial_ip.Buffer.{
  Buffer, limit, ReadAnswer, stored, WriteAnswer, bfstrchr, bfstrchr_from, read_from_fd_to_buffer,
}
use serial_ip.Buffer.Invariant.{Holds, length-Holds}
use serial_ip.Buffer.Fill.{answer, IsBoundedRead, read_from_fd_to_buffer-Holds}
use serial_ip.Buffer.Drain.{
  IsBoundedWrite, offer, count, write_result, write_from_buffer_to_fd-Holds,
}
use serial_ip.NetworkController.{
  escape_found, process_found, read_serial, read_serial_from, read_socket, read_socket_from,
  data_ready, quote, interpret, write_socket, failed,
}
use serial_ip.Telnet.Codes.{iac}
use serial_ip.Telnet.Commands.Decoded.{process_telnet_options-decoded}
use serial_ip.Telnet.Commands.Items.{Item, AreItems, encoded, decoded, run, Plain, next_item, body}
use serial_ip.Telnet.Escaping.Doubled.{doubled, count_iac, escape_iac_chars-doubled}
use serial_ip.Telnet.Scan.{Absent}
use serial_ip.Telnet.Session.{Session, SessionState, suspend, resume, Outside}

-- What a search over the active portion tells: it stays in the block, and nothing found means none
-- there.
scan :
    (lim : ℕ) (m : Memory) (ch s n : ℕ)
    → s + n < lim
    → (found : Option ℕ) × (bfstrchr_from lim m ch s n ≡ some found)
      × (found ≡ none → Absent ch (window m s n))
unfolding bfstrchr_from
scan lim m ch s zero h =
    rw (ltb_of_lt {a = s} {b = lim} (omega arith))
      ((if m s == ch then some s else none), refl, λ _. tt)
scan lim m ch s (suc n) h =
    rw (ltb_of_lt {a = s} {b = lim} (omega arith)) (elim (Bool-cases (m s == ch)) [
      | inl here ↦ rw here (some s, refl, λ e. absurd (cc))
      | inr other ↦
          let (found, e, a) = scan lim m ch (s + 1) n (omega arith) in
          rw other (found, e, λ gone. (ground arith, a gone))
    ])

bfstrchr-scan :
    (b : Buffer) (xs : List ℕ)
    → Holds b xs
    → (found : Option ℕ) × (bfstrchr b iac ≡ some found) × (found ≡ none → Absent iac xs)
unfolding bfstrchr
bfstrchr-scan b xs h =
    let (found, e, a) =
      scan (limit b) b.mem iac b.writep b.nbuffered
        (omega (arith, h.valid.between, h.valid.inside)) in
    (found, e, λ gone. rw h.bytes at (a gone))

doubled-Absent : (xs : List ℕ) → Absent iac xs → doubled xs ≡ xs
doubled-Absent [] a = refl
doubled-Absent (x ∷ xs) a = ground (arith, doubled-Absent xs a.1)

-- With quoting on, every IAC in the buffer is doubled, whether the search found one or not.
quote-doubled :
    (b : Buffer) (xs : List ℕ)
    → Holds b xs
    → b.readp + count_iac xs ≤ b.size
    → (after : Buffer) × (quote false b ≡ some after) × Holds after (doubled xs)
unfolding escape_found
quote-doubled b xs h room = let (found, e, a) = bfstrchr-scan b xs h in rw e (escaped found a)
  where
    escaped :
        (found : Option ℕ)
        → (found ≡ none → Absent iac xs)
        → (after : Buffer) × (escape_found found b ≡ some after) × Holds after (doubled xs)
    escaped none a = (b, refl, rw (doubled-Absent xs (a refl)) h)
    escaped (some p) a =
        let (after, acts, held, same) = escape_iac_chars-doubled b xs h room in (after, acts, held)

module _ (read : ℕ → ReadAnswer) (b : Buffer) (xs : List ℕ) (c : ℕ) (cs : List ℕ) where
  -- The read behind which both readers go on.
  read_some :
      IsBoundedRead read
      → Holds b xs
      → answer read b ≡ stored (c ∷ cs)
      → (after : Buffer) × (read_from_fd_to_buffer read b ≡ some (pos (suc (length cs)), after))
        × Holds after (xs ++ c ∷ cs)
        × (after.size ≡ b.size)
        × (after.readp ≡ b.readp + length (c ∷ cs))
  read_some bounded h e =
      let (after, acts, held0, same, start) = read_from_fd_to_buffer-Holds read b xs bounded h in
      let held : Holds after (xs ++ c ∷ cs) = rw e at held0 in
      (
        after,
        rw e at acts,
        held,
        same,
        omega (
          arith,
          length-Holds held,
          length-Holds h,
          length-append xs (c ∷ cs),
          held.valid.between,
          h.valid.between,
          start,
        ),
      )

  -- A read of at least one byte from the serial port, quoting being on and the block having room
  -- for one more byte for each IAC, returns 0, notes that data is ready and leaves every IAC in
  -- the buffer doubled: those read, and those that stood there before.
  pub read_serial-doubled :
      (linestate : ℕ)
      → IsBoundedRead read
      → Holds b xs
      → answer read b ≡ stored (c ∷ cs)
      → b.readp + length (c ∷ cs) + count_iac (xs ++ c ∷ cs) ≤ b.size
      → (after : Buffer) × (read_serial read false b linestate
          ≡ some (0, after, data_ready linestate))
        × Holds after (doubled (xs ++ c ∷ cs))
  unfolding read_serial read_serial_from
  read_serial-doubled linestate bounded h e room =
      let (mid, acts, held, same, readp) = read_some bounded h e in
      let (after, quoted, held') = quote-doubled mid (xs ++ c ∷ cs) held (omega arith) in
      rw (acts, quoted) (after, refl, held')

-- No IAC in the bytes of a stream: it is data.
no_command : (pre ys : List ℕ) → Absent iac (pre ++ iac ∷ ys) → ⊥
no_command [] ys a = a.0 refl
no_command (x ∷ pre) ys a = no_command pre ys a.1

Plain-Absent : (items : List Item) → AreItems items → Absent iac (encoded items) → Plain items
Plain-Absent items w a = elim (next_item items w) [
  | inl p ↦ p
  | inr f ↦
      absurd (no_command f.before (body f.at ++ encoded f.behind) (subst (Absent iac) f.bytes a))
]

-- The commands in the buffer are acted on, whether the search found an IAC or not.
interpret-decoded :
    (os : Outside) (b : Buffer) (items : List Item) (s s' : Session)
    → AreItems items
    → Holds b (encoded items)
    → run os items s ≡ some s'
    → (after : Buffer) × (interpret os false b s ≡ some (after, s')) × Holds after (decoded items)
unfolding process_found
interpret-decoded os b items s s' w h e =
    let (found, seen, a) = bfstrchr-scan b (encoded items) h in rw seen (processed found a)
  where
    processed :
        (found : Option ℕ)
        → (found ≡ none → Absent iac (encoded items))
        → (after : Buffer) × (process_found os found b s ≡ some (after, s'))
          × Holds after (decoded items)
    processed none a =
        let p = Plain-Absent items w (a refl) in
        let acts : some s ≡ some s' = sym (p.acts os s) ∙ e in
        let same : s ≡ s' = cc in (b, rw same, rw p.bytes at h)
    processed (some p) a =
        let (after, acts, held, same) = process_telnet_options-decoded os b items s s' w h e in
        (after, acts, held)

-- Outside raw mode, a read of at least one byte that together with the bytes held completes a
-- well-formed stream (suboptions without an SE, at most 255 bytes long with their IACs doubled),
-- whose commands lead from session `s` to `s'`, returns 0, leaves the data of that stream in the
-- buffer, and the session `s'`.
pub read_socket-decoded :
    (os : Outside) (read : ℕ → ReadAnswer) (unset : ℤ) (b : Buffer) (xs : List ℕ) (c : ℕ)
    → (cs : List ℕ) (items : List Item) (s s' : Session) → IsBoundedRead read
    → Holds b xs
    → answer read b ≡ stored (c ∷ cs)
    → xs ++ c ∷ cs ≡ encoded items
    → AreItems items
    → run os items s ≡ some s'
    → (after : Buffer) × (read_socket os read false unset b s ≡ some (0, after, s'))
      × Holds after (decoded items)
unfolding read_socket read_socket_from
read_socket-decoded os read unset b xs c cs items s s' bounded h e bytes w acts =
    let (mid, got, held, same, readp) = read_some read b xs c cs bounded h e in
    let (after, done, held') = interpret-decoded os mid items s s' w (rw bytes at held) acts in
    rw (got, done) (after, refl, held')

-- When the socket takes no more than it is offered, a suspended session writes nothing and returns
-- 0; a running one writes as many bytes from the front as are taken, keeps the rest in a valid
-- buffer, and returns 1 exactly on an error.
pub write_socket-Holds :
    (write : List ℕ → WriteAnswer) (state : SessionState) (b : Buffer) (xs : List ℕ)
    → IsBoundedWrite write
    → Holds b xs
    → (n : ℕ) × (after : Buffer) × Holds after (drop n xs)
      × (write_socket write state b ≡ (
        elim state [ suspend ↦ 0 | resume ↦ failed (write_result (offer write xs)) ],
        after,
        take n xs,
      ))
      × (n ≡ elim state [ suspend ↦ 0 | resume ↦ count (offer write xs) ])
unfolding write_socket
write_socket-Holds write suspend b xs bounded h = (0, b, h, refl, refl)
write_socket-Holds write resume b xs bounded h =
    let (after, acts, held, same, back) = write_from_buffer_to_fd-Holds write b xs bounded h in
    (count (offer write xs), after, held, ap (λ (n, b', bytes). (failed n, b', bytes)) acts, refl)
