-- ===== src/Buffer/Append.antt =====
-- Appending to a buffer.
use serial_ip.Base.{
  ℕ, ◌+◌, ◌-◌, ◌≤◌, ◌<◌, none, some, List, ◌++◌, ◌≡◌, ap, ap₂, ◌∙◌, arith, length, take-of_le,
  get_or,
}
use serial_ip.Base.Memory.{
  copied_in, copy_in_lem, copy_in_fault, window-get_or, window-add, window-ext,
}
use serial_ip.Buffer.{Buffer, limit, bfstrncat}
use serial_ip.Buffer.Invariant.{IsValid, Holds, length-Holds}

abbrev pub appended : Buffer → List ℕ → Buffer
appended b bs = record b {
  mem = copied_in b.readp bs b.mem;
  nbuffered = b.nbuffered + length bs;
  readp = b.readp + length bs;
}

pub appended-Holds :
    (b : Buffer) (xs bs : List ℕ)
    → Holds b xs
    → b.readp + length bs ≤ b.size
    → Holds (appended b bs) (xs ++ bs)
appended-Holds b xs bs h room =
    let l = length-Holds h in
    let v = h.valid in
    let m' = (appended b bs).mem in
    record {
      valid = omega arith;
      bytes =
          window-add m' b.writep b.nbuffered (length bs)
          ∙ ap₂ ◌++◌
              (window-ext b.nbuffered b.writep b.writep m' b.mem (λ j lt. ground arith) ∙ h.bytes)
              (window-get_or bs (b.writep + b.nbuffered) m'
                (λ j lt. ground (arith, ap (λ k. get_or bs k 0) (at j))));
    }
  where
    at : (j : ℕ) → b.writep + b.nbuffered + j - b.readp ≡ j
    at j = omega (arith, h.valid.between)

-- There is room behind the read pointer: the bytes are appended whole.
pub bfstrncat_lem :
    (b : Buffer) (xs bs : List ℕ)
    → Holds b xs
    → b.readp + length bs ≤ b.size
    → bfstrncat b bs (length bs) ≡ some (length bs, appended b bs)
unfolding bfstrncat
bfstrncat_lem b xs bs h room =
    ground
      (arith, h.valid.between, take-of_le (length bs) bs, copy_in_lem (limit b) b.readp bs b.mem)

-- In a valid buffer, bytes that are no more than `size - nbuffered`, but reach past the block
-- behind the read pointer, are copied past its end.
pub bfstrncat_fault :
    (b : Buffer) (bs : List ℕ)
    → IsValid b
    → length bs ≤ b.size - b.nbuffered
    → limit b < b.readp + length bs
    → bfstrncat b bs (length bs) ≡ none
unfolding bfstrncat
bfstrncat_fault b bs v fits past =
    ground (arith, take-of_le (length bs) bs, copy_in_fault (limit b) b.readp bs b.mem)

-- Bytes that fit between the read pointer of a valid buffer and its end are appended whole, and
-- the buffer stays valid.
pub bfstrncat-Holds :
    (b : Buffer) (xs bs : List ℕ)
    → Holds b xs
    → b.readp + length bs ≤ b.size
    → (after : Buffer) × (bfstrncat b bs (length bs) ≡ some (length bs, after))
      × Holds after (xs ++ bs)
bfstrncat-Holds b xs bs h room =
    (appended b bs, bfstrncat_lem b xs bs h room, appended-Holds b xs bs h room)
