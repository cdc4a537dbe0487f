-- ===== src/Telnet/Escaping/Doubled.antt =====
-- What `escape_iac_chars` leaves in the buffer.
use serial_ip.Base.{
  ℕ, zero, suc, ◌+◌, ◌-◌, ◌≤◌, ◌<◌, Option, some, List, [], ◌∷◌, ◌++◌, inl, inr, ◌≡◌, refl, sym, ap,
  ◌∙◌, append-nil, append_assoc, ltb_of_lt, ◌==◌, if◌then◌else◌, ◌>>=◌, length, length-append,
  arith,
}
use serial_ip.Base.Memory.{Spans, window-split}
use serial_ip.Buffer.{Buffer, limit, bfinsch}
use serial_ip.Buffer.Edit.{bfinsch-Holds}
use serial_ip.Buffer.Invariant.{Holds, length-Holds}
use serial_ip.Telnet.Codes.{iac}
use serial_ip.Telnet.Escaping.{go_on, escape_loop, escape_iac_chars}
use serial_ip.Telnet.Scan.{mystrchr, Absent, first, mystrchr-Absent, mystrchr-Split}

-- The bytes with each IAC written twice.
abbrev pub doubled : List ℕ → List ℕ
doubled [] = []
doubled (x ∷ xs) = if x == iac then iac ∷ iac ∷ doubled xs else x ∷ doubled xs

abbrev pub count_iac : List ℕ → ℕ
count_iac [] = 0
count_iac (x ∷ xs) = (if x == iac then 1 else 0) + count_iac xs

doubled-Absent : (xs ys : List ℕ) → Absent iac xs → doubled (xs ++ ys) ≡ xs ++ doubled ys
doubled-Absent [] ys a = refl
doubled-Absent (x ∷ xs) ys a = ground (arith, doubled-Absent xs ys a.1)

count_iac-Absent : (xs ys : List ℕ) → Absent iac xs → count_iac (xs ++ ys) ≡ count_iac ys
count_iac-Absent [] ys a = refl
count_iac-Absent (x ∷ xs) ys a = ground (arith, count_iac-Absent xs ys a.1)

-- One round with nothing behind the IAC, and with more bytes behind it.
escape_loop-last :
    (fuel : ℕ) (b b' : Buffer) (at : ℕ)
    → bfinsch b at iac ≡ some (1, b')
    → escape_loop (suc fuel) b at 1 ≡ some b'
unfolding escape_loop
escape_loop-last fuel b b' at e = rw e

escape_loop-more :
    (fuel : ℕ) (b b' : Buffer) (at size : ℕ)
    → bfinsch b at iac ≡ some (1, b')
    → 0 < size
    → escape_loop (suc fuel) b at (suc size) ≡ (
        mystrchr (limit b') b'.mem (at + 2) iac size
        >>= go_on (escape_loop fuel b') b' (at + 2) size)
unfolding escape_loop
escape_loop-more fuel b b' at size e h =
    let s : suc size + 1 - 2 ≡ size = omega arith in rw (e, s, ltb_of_lt h)

-- The bytes of a buffer behind `xs` lie where the scan looks for them.
behind :
    {b : Buffer} (xs ys : List ℕ)
    → Holds b (xs ++ ys)
    → Spans b.mem (b.writep + length xs) ys × (b.writep + length xs + length ys ≤ limit b)
behind {b} xs ys h =
    let (p, q, r) = window-split b.mem xs ys b.writep b.nbuffered h.bytes in
    (q, omega (arith, h.valid))

record Escaped (b : Buffer) (xs : List ℕ) (out : Option Buffer) : Type 0 where
  after : Buffer
  returns : out ≡ some after
  holds : Holds after xs
  same_size : after.size ≡ b.size

-- The search behind a doubled IAC, and the rounds that it leads to.
abbrev Rounds : ℕ → Type 0
Rounds fuel =
    (b : Buffer) (done rest : List ℕ)
    → Holds b (done ++ iac ∷ rest)
    → b.readp + (1 + count_iac rest) ≤ b.size
    → length rest < fuel
    → Escaped b (done ++ iac ∷ iac ∷ doubled rest)
        (escape_loop fuel b (b.writep + length done) (suc (length rest)))

module _ (fuel : ℕ) (b : Buffer) (done pre post : List ℕ) (rounds : Rounds fuel) where
  go_on-Split :
      Absent iac pre
      → Holds b (done ++ (pre ++ iac ∷ post))
      → b.readp + (1 + count_iac post) ≤ b.size
      → length post < fuel
      → Escaped b (done ++ (pre ++ iac ∷ iac ∷ doubled post)) (
          mystrchr (limit b) b.mem (b.writep + length done) iac (length (pre ++ iac ∷ post))
          >>= go_on (escape_loop fuel b) b (b.writep + length done) (length (pre ++ iac ∷ post)))
  go_on-Split a h room f =
      let (p, l) = behind done (pre ++ iac ∷ post) h in
      let len = length-append pre (iac ∷ post) in
      let at : b.writep + length done + length pre ≡ b.writep + length (done ++ pre) =
        omega (arith, length-append done pre) in
      let left : length (pre ++ iac ∷ post)
            - (b.writep + length done + length pre - (b.writep + length done))
          ≡ suc (length post) =
        omega arith in
      let assoc = append_assoc done pre in
      rw (mystrchr-Split (limit b) b.mem (b.writep + length done) iac pre post p l a, left, at)
        (rw (append_assoc done pre (iac ∷ iac ∷ doubled post)) at
          (rounds b (done ++ pre) post (rw (append_assoc done pre (iac ∷ post)) h) room f))

go_on-Escaped :
    (fuel : ℕ) (b : Buffer) (done rest : List ℕ)
    → Rounds fuel
    → Holds b (done ++ rest)
    → b.readp + count_iac rest ≤ b.size
    → length rest ≤ fuel
    → (from : ℕ) → from ≡ b.writep + length done
    → Escaped b (done ++ doubled rest) (
        mystrchr (limit b) b.mem from iac (length rest)
        >>= go_on (escape_loop fuel b) b from (length rest))
go_on-Escaped fuel b done rest rounds h room f from e = elim (first iac rest) [
  | inl a ↦
      let (p, l) = behind done rest h in
      let d : doubled rest ≡ rest = rw append-nil at (doubled-Absent rest [] a) in
      rw (e, mystrchr-Absent (limit b) b.mem (b.writep + length done) iac rest p l a, d)
        (record { after = b; returns = refl; holds = h; same_size = refl })
  | inr s ↦
      let d : doubled rest ≡ s.before ++ iac ∷ iac ∷ doubled s.behind =
        ap doubled s.splits ∙ doubled-Absent s.before (iac ∷ s.behind) s.absent in
      let c : count_iac rest ≡ 1 + count_iac s.behind =
        ap count_iac s.splits ∙ count_iac-Absent s.before (iac ∷ s.behind) s.absent in
      let len = ap length s.splits in
      let len' = length-append s.before (iac ∷ s.behind) in
      rw (e, d, s.splits)
        (go_on-Split fuel b done s.before s.behind rounds s.absent (rw s.splits at h) (omega arith)
          (omega arith))
]

escape_loop-Escaped : (fuel : ℕ) → Rounds fuel
escape_loop-Escaped zero b done rest h room f = absurd (omega arith)
escape_loop-Escaped (suc fuel) b done [] h room f =
    let (b', e, h', same, start, moved) = bfinsch-Holds b done (iac ∷ []) iac h (omega arith) in
    record {
      after = b';
      returns = escape_loop-last fuel b b' (b.writep + length done) e;
      holds = h';
      same_size = same;
    }
escape_loop-Escaped (suc fuel) b done (x ∷ xs) h room f =
    let (b', e, h', same, start, moved) = bfinsch-Holds b done (iac ∷ x ∷ xs) iac h (omega arith) in
    let step =
      escape_loop-more fuel b b' (b.writep + length done) (length (x ∷ xs)) e (omega arith) in
    let done' : List ℕ = done ++ iac ∷ iac ∷ [] in
    let out =
      go_on-Escaped fuel b' done' (x ∷ xs) (escape_loop-Escaped fuel)
        (rw (append_assoc done (iac ∷ iac ∷ []) (x ∷ xs)) h') (omega arith) (omega arith)
        (b.writep + length done + 2) (omega (arith, length-append done (iac ∷ iac ∷ []))) in
    record {
      after = out.after;
      returns = step ∙ out.returns;
      holds = rw (append_assoc done (iac ∷ iac ∷ []) (doubled (x ∷ xs))) at out.holds;
      same_size = out.same_size ∙ same;
    }

-- When a valid buffer has room for one more byte for each IAC that it holds, `escape_iac_chars`
-- returns, and the buffer, of the same size, then validly holds the same bytes with every IAC
-- doubled.
pub escape_iac_chars-doubled :
    (b : Buffer) (xs : List ℕ)
    → Holds b xs
    → b.readp + count_iac xs ≤ b.size
    → (after : Buffer) × (escape_iac_chars b ≡ some after)
      × Holds after (doubled xs)
      × (after.size ≡ b.size)
unfolding escape_iac_chars
escape_iac_chars-doubled b xs h room =
    let len = length-Holds h in
    let out =
      go_on-Escaped b.nbuffered b [] xs (escape_loop-Escaped b.nbuffered) h room (omega arith)
        b.writep (omega arith) in
    (
      out.after,
      ap
            (λ n.
              mystrchr (limit b) b.mem b.writep iac n
              >>= go_on (escape_loop b.nbuffered b) b b.writep n)
            (sym len)
          ∙ out.returns,
      out.holds,
      out.same_size,
    )
