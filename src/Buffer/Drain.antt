-- ===== src/Buffer/Drain.antt =====
-- Draining a buffer to a descriptor.
use serial_ip.Base.{
  ℕ, zero, suc, ◌+◌, ◌-◌, ◌≤◌, ◌<◌, List, [], ◌∷◌, inl, inr, ◌≡◌, refl, sym, ap, ◌∙◌, arith, length,
  take, drop, take-append-drop, length-take, drop-of_le, ltb, Bool-cases, ltb_of_lt, ltb_of_le,
}
use serial_ip.Base.Memory.{window, window-split, Spans}
use serial_ip.Base.Integer.{ℤ, pos, negsuc}
use serial_ip.Buffer.{
  Buffer, bfinit, buffer_writepointer_position, WriteAnswer, taken, write_interrupted, write_failed,
  write_from_buffer_to_fd, after_write, cal_numbytes_to_write,
}
use serial_ip.Buffer.Invariant.{IsValid, Holds, length-Holds, bfinit-Holds}

-- The bytes that an answer of write(2) takes.
abbrev pub count : WriteAnswer → ℕ
count (taken n) = n
count write_interrupted = 0
count write_failed = 0

-- write(2) takes at most the bytes it is offered.
abbrev pub IsBoundedWrite : (List ℕ → WriteAnswer) → Type 0
IsBoundedWrite write = (bs : List ℕ) → count (write bs) ≤ length bs

abbrev pub offer : (List ℕ → WriteAnswer) → List ℕ → WriteAnswer
offer write [] = write_interrupted
offer write (x ∷ xs) = write (x ∷ xs)

abbrev pub write_result : WriteAnswer → ℤ
write_result (taken n) = pos n
write_result write_interrupted = pos 0
write_result write_failed = negsuc 0

cal_numbytes_to_write_lem : (b : Buffer) → IsValid b → cal_numbytes_to_write b ≡ pos b.nbuffered
unfolding cal_numbytes_to_write
cal_numbytes_to_write_lem b v = ground arith

abbrev departed : Buffer → ℕ → Buffer
departed b zero = b
departed b (suc n) = buffer_writepointer_position b (suc n)

after_write_lem :
    (b : Buffer) (a : WriteAnswer)
    → after_write b a ≡ (write_result a, departed b (count a), window b.mem b.writep (count a))
unfolding after_write
after_write_lem b (taken zero) = refl
after_write_lem b (taken (suc n)) = refl
after_write_lem b write_interrupted = refl
after_write_lem b write_failed = refl

write_lem :
    (write : List ℕ → WriteAnswer) (b : Buffer) (k : ℕ)
    → cal_numbytes_to_write b ≡ pos k
    → write_from_buffer_to_fd write b ≡ after_write b (offer write (window b.mem b.writep k))
unfolding write_from_buffer_to_fd
write_lem write b zero e = rw (e, write_from_buffer_to_fd) (unfold after_write in refl)
write_lem write b (suc k) e = rw (e, write_from_buffer_to_fd)

departed_part :
    (b : Buffer) (n : ℕ)
    → n < b.nbuffered
    → buffer_writepointer_position b n
      ≡ record b { nbuffered = b.nbuffered - n; writep = b.writep + n }
unfolding buffer_writepointer_position
departed_part b n h = rw (ltb_of_lt h)

departed_all : (b : Buffer) (n : ℕ) → b.nbuffered ≤ n → buffer_writepointer_position b n ≡ bfinit b
unfolding buffer_writepointer_position
departed_all b n h = rw (ltb_of_le h)

bfinit_size : (b : Buffer) → (bfinit b).size ≡ b.size
unfolding bfinit
bfinit_size b = refl

bfinit_readp : (b : Buffer) → (bfinit b).readp ≤ b.readp
unfolding bfinit
bfinit_readp b = omega arith

module _ (b : Buffer) (xs : List ℕ) (n : ℕ) (h : Holds b xs) (l : n ≤ length xs) where
  split :
      Spans b.mem b.writep (take n xs)
      × Spans b.mem (b.writep + length (take n xs)) (drop n xs)
      × (b.nbuffered ≡ length (take n xs) + length (drop n xs))
  split =
      window-split b.mem (take n xs) (drop n xs) b.writep b.nbuffered
        (h.bytes ∙ sym (take-append-drop n xs))

  length_front : length (take n xs) ≡ n
  length_front = omega (arith, length-take n xs)

  front : window b.mem b.writep n ≡ take n xs
  front = rw length_front at split.0

  back : window b.mem (b.writep + n) (b.nbuffered - n) ≡ drop n xs
  back =
      let len : b.nbuffered - n ≡ length (drop n xs) = omega (arith, split.2, length_front) in
      rw len (rw length_front at split.1)

  departed_rest :
      Holds (buffer_writepointer_position b n) (drop n xs)
      × ((buffer_writepointer_position b n).size ≡ b.size)
      × ((buffer_writepointer_position b n).readp ≤ b.readp)
  departed_rest = elim (Bool-cases (ltb n b.nbuffered)) [
    | inl part ↦
        let v = h.valid in
        rw (departed_part b n (ground arith))
          (record { valid = ground arith; bytes = back }, refl, omega arith)
    | inr all ↦
        rw (departed_all b n (ground arith), drop-of_le n xs (ground (arith, length-Holds h)))
          (bfinit-Holds b h.valid.nonempty, bfinit_size b, bfinit_readp b)
  ]

departed-Holds :
    (b : Buffer) (xs : List ℕ) (n : ℕ)
    → Holds b xs
    → n ≤ length xs
    → (window b.mem b.writep n ≡ take n xs)
      × Holds (departed b n) (drop n xs)
      × ((departed b n).size ≡ b.size)
      × ((departed b n).readp ≤ b.readp)
departed-Holds b xs zero h l = (refl, h, refl, omega arith)
departed-Holds b xs (suc n) h l =
    let (held, same, back) = departed_rest b xs (suc n) h l in
    (front b xs (suc n) h l, held, same, back)

-- When the descriptor takes no more than it is offered, a write from a valid buffer offers all
-- bytes held, returns the descriptor's answer, hands over as many bytes from the front as were
-- taken, and keeps the rest in a valid buffer of the same size.
pub write_from_buffer_to_fd-Holds :
    (write : List ℕ → WriteAnswer) (b : Buffer) (xs : List ℕ)
    → IsBoundedWrite write
    → Holds b xs
    → let a = offer write xs in
      (after : Buffer) × (write_from_buffer_to_fd write b
        ≡ (write_result a, after, take (count a) xs))
      × Holds after (drop (count a) xs)
      × (after.size ≡ b.size)
      × (after.readp ≤ b.readp)
write_from_buffer_to_fd-Holds write b xs bounded h =
    let a = offer write xs in
    let (front, held, same, back) = departed-Holds b xs (count a) h (within xs) in
    (
      departed b (count a),
      (write_lem write b b.nbuffered (cal_numbytes_to_write_lem b h.valid)
          ∙ ap (λ ys. after_write b (offer write ys)) h.bytes
          ∙ after_write_lem b a
          ∙ ap (λ ys. (write_result a, departed b (count a), ys)) front),
      held,
      same,
      back,
    )
  where
    within : (ys : List ℕ) → count (offer write ys) ≤ length ys
    within [] = omega arith
    within (y ∷ ys) = bounded (y ∷ ys)
