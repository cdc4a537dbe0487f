-- ===== src/Buffer.antt =====
-- The byte buffers of buffer_handle.c: one block of `size + 1` bytes, a read pointer where input is
-- stored, a write pointer where output is taken. Pointers are offsets from `buffp`. A function that
-- the code lets touch memory outside the block returns `none` there. A buffer argument is never
-- NULL: the session checks the three it allocates.
pub mod Invariant
pub mod Edit
pub mod Append
pub mod Fill
pub mod Drain
use serial_ip.Base.{
  ℕ, zero, suc, ◌+◌, ◌-◌, Bool, true, false, ◌&&◌, Option, none, some, List, [], ◌∷◌, ltb, leb,
  ◌==◌, if◌then◌else◌, ◌>>=◌, length, take,
}
use serial_ip.Base.Integer.{ℤ, pos, negsuc, sub_ℕ, pos_part, is_nonpositive}
use serial_ip.Base.Memory.{Memory, load, store, window, shift_right, shift_left, copy_in}
use serial_ip.Base.Text.{Text}

-- `struct buffer_t`; `buffp` is offset 0 of `mem`.
pub record Buffer : Type 0 where
  pub size : ℕ
  pub nbuffered : ℕ
  pub eof : Bool
  pub label : Text
  pub mem : Memory
  pub tailp : ℕ
  pub readp : ℕ
  pub writep : ℕ

-- bytes allocated
abbrev pub limit : Buffer → ℕ
limit b = b.size + 1

unfoldable pub bfinit : Buffer → Buffer
bfinit b = record b {
  readp = 0;
  writep = 0;
  tailp = b.size;
  nbuffered = 0;
  mem = λ j. if ltb j b.size then 0 else b.mem j;
}

-- `allocated k` tells whether the k-th allocation of the call succeeds, `bufsiz` is BUFSIZ, and
-- `none` is the NULL result.
unfoldable pub bfmalloc : ℕ → (ℕ → Bool) → Option Text → ℤ → Option Buffer
unfolding bfinit
bfmalloc bufsiz allocated label size =
    if allocated 0 && allocated 1 && allocated 2
    then some (
        bfinit (record {
          size = if is_nonpositive size then bufsiz else pos_part size;
          nbuffered = 0;
          eof = false;
          label = elim label [ some l ↦ l | none ↦ [] ];
          mem = λ _. 0;
          tailp = 0;
          readp = 0;
          writep = 0;
        }))
    else none

-- `nbytes` is negative only to take back at most what is buffered.
unfoldable pub buffer_readpointer_position : Buffer → ℤ → Buffer
buffer_readpointer_position b (pos n) = record b {
  nbuffered = b.nbuffered + n;
  readp = b.readp + n;
}
buffer_readpointer_position b (negsuc n) = record b {
  nbuffered = b.nbuffered - suc n;
  readp = b.readp - suc n;
}

-- `nbuffered -= nbytes` falls to 0 or below exactly when `nbytes` is not below it.
unfoldable pub buffer_writepointer_position : Buffer → ℕ → Buffer
unfolding bfinit
buffer_writepointer_position b nbytes =
    if ltb nbytes b.nbuffered
    then record b { nbuffered = b.nbuffered - nbytes; writep = b.writep + nbytes }
    else bfinit b

-- Returns 1 on success, 0 on failure.
unfoldable pub bfinsch : Buffer → ℕ → ℕ → Option (ℕ × Buffer)
unfolding buffer_readpointer_position
bfinsch b ptr ch =
    if leb b.writep ptr && leb ptr b.readp
    then (do
      m ← shift_right (limit b) (b.readp - ptr) ptr b.mem
      m' ← store (limit b) m ptr ch
      some (1, buffer_readpointer_position (record b { mem = m' }) (pos 1)))
    else some (0, b)

-- The scan of `bfstrchr`, `n` bytes being left. The byte behind the last one is looked at too.
unfoldable pub bfstrchr_from : ℕ → Memory → ℕ → ℕ → ℕ → Option (Option ℕ)
bfstrchr_from lim m ch s zero = do c ← load lim m s; some (if c == ch then some s else none)
bfstrchr_from lim m ch s (suc n) =
    let rest = bfstrchr_from lim m ch (s + 1) n in
    load lim m s >>= λ c. if c == ch then some (some s) else rest

unfoldable pub bfstrchr : Buffer → ℕ → Option (Option ℕ)
unfolding bfstrchr_from
bfstrchr b ch = bfstrchr_from (limit b) b.mem ch b.writep b.nbuffered

-- `nbytes * -1`
abbrev pub minus : ℕ → ℤ
minus n = sub_ℕ 0 n

-- Returns the number of characters removed. `nbytes` is not negative.
unfoldable pub bfrmstr : Buffer → ℕ → ℕ → Option (ℕ × Buffer)
unfolding bfinit buffer_readpointer_position
bfrmstr b ptr nbytes =
    if leb b.writep ptr && leb ptr b.readp
    then if leb b.nbuffered nbytes
      then some (nbytes, bfinit b)
      else (let n = if ltb (b.readp - ptr) nbytes then b.readp - ptr else nbytes in
          shift_left (limit b) (b.readp - (ptr + n)) ptr (ptr + n) b.mem >>= λ m.
          some (n, buffer_readpointer_position (record b { mem = m }) (minus n)))
    else some (0, b)

abbrev pub bf_get_nbytes_active : Buffer → ℕ
bf_get_nbytes_active b = b.nbuffered

-- The pointer, and what goes through `amount`.
abbrev pub bf_point_to_active_portion : Buffer → ℕ × ℕ
bf_point_to_active_portion b = (b.writep, b.nbuffered)

abbrev pub bfeof : Buffer → Bool
bfeof b = b.eof

unfoldable pub cal_numbytes_to_read : Buffer → ℤ
cal_numbytes_to_read b =
    if ltb b.writep b.readp
    then sub_ℕ b.tailp b.readp
    else if ltb b.readp b.writep
    then sub_ℕ b.writep b.readp
    else if b.nbuffered == 0
    then pos b.size
    else pos 0

unfoldable pub cal_numbytes_to_write : Buffer → ℤ
cal_numbytes_to_write b =
    if ltb b.writep b.readp
    then sub_ℕ b.readp b.writep
    else if ltb b.readp b.writep
    then sub_ℕ b.tailp b.writep
    else if b.nbuffered == 0
    then pos 0
    else sub_ℕ b.tailp b.writep

-- What read(2) answers: the bytes it stored (none at end of file), or an error, EINTR and EAGAIN
-- being told apart from the others.
pub data ReadAnswer : Type 0 where
  stored : List ℕ → ReadAnswer
  read_interrupted : ReadAnswer
  read_failed : ReadAnswer

-- What write(2) answers: the number of bytes taken, or an error.
pub data WriteAnswer : Type 0 where
  taken : ℕ → WriteAnswer
  write_interrupted : WriteAnswer
  write_failed : WriteAnswer

-- behind a `read` that returned
unfoldable pub after_read : Buffer → ReadAnswer → Option (ℤ × Buffer)
unfolding buffer_readpointer_position
after_read b read_failed = some (negsuc 0, b)
after_read b read_interrupted = some (pos 0, b)
after_read b (stored []) = some (pos 0, record b { eof = true })
after_read b (stored (c ∷ cs)) = do
  m ← copy_in (limit b) b.readp (c ∷ cs) b.mem
  some (
    pos (length (c ∷ cs)),
    buffer_readpointer_position (record b { mem = m }) (pos (length (c ∷ cs))),
  )

-- `read` is read(2) on the descriptor, given the number of bytes asked for.
unfoldable pub read_from_fd_to_buffer : (ℕ → ReadAnswer) → Buffer → Option (ℤ × Buffer)
read_from_fd_to_buffer read b = elim (cal_numbytes_to_read b) [
  | pos zero ↦ some (pos 0, b)
  | pos (suc n) ↦ after_read b (read (suc n))
  | negsuc n ↦ some (negsuc n, b)
]

-- behind a `write` that returned; the last component is what went out on the descriptor
unfoldable pub after_write : Buffer → WriteAnswer → ℤ × Buffer × List ℕ
unfolding buffer_writepointer_position
after_write b write_failed = (negsuc 0, b, [])
after_write b write_interrupted = (pos 0, b, [])
after_write b (taken zero) = (pos 0, b, [])
after_write b (taken (suc n)) =
    (pos (suc n), buffer_writepointer_position b (suc n), window b.mem b.writep (suc n))

-- `write` is write(2) on the descriptor, given the bytes offered.
unfoldable pub write_from_buffer_to_fd : (List ℕ → WriteAnswer) → Buffer → ℤ × Buffer × List ℕ
write_from_buffer_to_fd write b = elim (cal_numbytes_to_write b) [
  | pos zero ↦ (pos 0, b, [])
  | pos (suc n) ↦ after_write b (write (window b.mem b.writep (suc n)))
  | negsuc n ↦ (negsuc n, b, [])
]

-- Returns the number of characters appended. A negative room makes `memcpy` copy without end.
unfoldable pub bfstrncat : Buffer → List ℕ → ℕ → Option (ℕ × Buffer)
unfolding buffer_readpointer_position
bfstrncat b command nbytes =
    if ltb b.size b.nbuffered
    then none
    else (let len = if ltb (b.size - b.nbuffered) nbytes then b.size - b.nbuffered else nbytes in
        copy_in (limit b) b.readp (take len command) b.mem >>= λ m.
        some (len, buffer_readpointer_position (record b { mem = m }) (pos len)))

unfoldable pub bfstrcat : Buffer → List ℕ → Option (ℕ × Buffer)
unfolding bfstrncat
bfstrcat b command = bfstrncat b command (length command)
