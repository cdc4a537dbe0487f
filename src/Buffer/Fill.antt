-- ===== src/Buffer/Fill.antt =====
-- Filling a buffer from a descriptor.
use serial_ip.Base.{
  ℕ, zero, suc, ◌-◌, ◌≤◌, true, some, List, [], ◌∷◌, ◌++◌, ◌≡◌, refl, sym, ◌∙◌, arith, length,
  append-nil,
}
use serial_ip.Base.Memory.{copy_in_lem}
use serial_ip.Base.Integer.{ℤ, pos, negsuc}
use serial_ip.Buffer.{
  Buffer, limit, ReadAnswer, stored, read_interrupted, read_failed, read_from_fd_to_buffer,
  after_read, cal_numbytes_to_read,
}
use serial_ip.Buffer.Invariant.{IsValid, Holds}
use serial_ip.Buffer.Append.{appended, appended-Holds}

-- The bytes that fit behind the read pointer.
abbrev pub room : Buffer → ℕ
room b = b.size - b.readp

-- What an answer of read(2) delivers.
abbrev pub delivered : ReadAnswer → List ℕ
delivered (stored cs) = cs
delivered read_interrupted = []
delivered read_failed = []

-- read(2) stores at most as many bytes as it was asked for.
abbrev pub IsBoundedRead : (ℕ → ReadAnswer) → Type 0
IsBoundedRead read = (n : ℕ) → length (delivered (read n)) ≤ n

pub cal_numbytes_to_read_lem : (b : Buffer) → IsValid b → cal_numbytes_to_read b ≡ pos (room b)
unfolding cal_numbytes_to_read
cal_numbytes_to_read_lem b v = ground arith

abbrev arrived : Buffer → ReadAnswer → Buffer
arrived b (stored []) = record b { eof = true }
arrived b (stored (c ∷ cs)) = appended b (c ∷ cs)
arrived b read_interrupted = b
arrived b read_failed = b

abbrev pub read_result : ReadAnswer → ℤ
read_result (stored cs) = pos (length cs)
read_result read_interrupted = pos 0
read_result read_failed = negsuc 0

after_read_lem :
    (b : Buffer) (a : ReadAnswer)
    → IsValid b
    → length (delivered a) ≤ room b
    → after_read b a ≡ some (read_result a, arrived b a)
unfolding after_read
after_read_lem b (stored []) v h = refl
after_read_lem b (stored (c ∷ cs)) v h =
    rw (copy_in_lem (limit b) b.readp (c ∷ cs) b.mem (omega (arith, v.inside))) refl
after_read_lem b read_interrupted v h = refl
after_read_lem b read_failed v h = refl

arrived-Holds :
    (b : Buffer) (xs : List ℕ) (a : ReadAnswer)
    → Holds b xs
    → length (delivered a) ≤ room b
    → Holds (arrived b a) (xs ++ delivered a)
arrived-Holds b xs (stored []) h l = record {
  valid = omega (arith, h.valid);
  bytes = h.bytes ∙ sym (append-nil xs);
}
arrived-Holds b xs (stored (c ∷ cs)) h l =
    appended-Holds b xs (c ∷ cs) h (omega (arith, h.valid.inside))
arrived-Holds b xs read_interrupted h l = rw append-nil h
arrived-Holds b xs read_failed h l = rw append-nil h

-- What a read leaves: the answer to a request for `room b` bytes, or nothing asked for a full buffer.
abbrev pub ask : (ℕ → ReadAnswer) → ℕ → ReadAnswer
ask read zero = read_interrupted
ask read (suc n) = read (suc n)

abbrev pub answer : (ℕ → ReadAnswer) → Buffer → ReadAnswer
answer read b = ask read (room b)

arrived-size : (b : Buffer) (a : ReadAnswer) → (arrived b a).size ≡ b.size
arrived-size b (stored []) = refl
arrived-size b (stored (c ∷ cs)) = refl
arrived-size b read_interrupted = refl
arrived-size b read_failed = refl

arrived-writep : (b : Buffer) (a : ReadAnswer) → (arrived b a).writep ≡ b.writep
arrived-writep b (stored []) = refl
arrived-writep b (stored (c ∷ cs)) = refl
arrived-writep b read_interrupted = refl
arrived-writep b read_failed = refl

read_lem :
    (read : ℕ → ReadAnswer) (b : Buffer) (k : ℕ)
    → cal_numbytes_to_read b ≡ pos k
    → room b ≡ k
    → IsValid b
    → IsBoundedRead read
    → read_from_fd_to_buffer read b ≡ some (read_result (answer read b), arrived b (answer read b))
unfolding read_from_fd_to_buffer
read_lem read b zero e r v h = rw (e, read_from_fd_to_buffer, r)
read_lem read b (suc k) e r v h =
    rw (e, read_from_fd_to_buffer, r) (after_read_lem b (read (suc k)) v (rw r (h (suc k))))

-- When the descriptor delivers no more than it is asked for, a read into a valid buffer returns
-- what the descriptor answered to a request for all the room behind the read pointer, puts the
-- bytes delivered behind those held, and keeps the buffer valid and of its size.
pub read_from_fd_to_buffer-Holds :
    (read : ℕ → ReadAnswer) (b : Buffer) (xs : List ℕ)
    → IsBoundedRead read
    → Holds b xs
    → (after : Buffer) × (read_from_fd_to_buffer read b ≡ some (read_result (answer read b), after))
      × Holds after (xs ++ delivered (answer read b))
      × (after.size ≡ b.size)
      × (after.writep ≡ b.writep)
read_from_fd_to_buffer-Holds read b xs bounded h = (
  arrived b (answer read b),
  read_lem read b (room b) (cal_numbytes_to_read_lem b h.valid) refl h.valid bounded,
  arrived-Holds b xs (answer read b) h (within (room b)),
  arrived-size b (answer read b),
  arrived-writep b (answer read b),
)
  where
    within : (k : ℕ) → length (delivered (ask read k)) ≤ k
    within zero = omega arith
    within (suc k) = bounded (suc k)
