-- ===== src/Buffer/Edit.antt =====
-- Inserting and removing bytes inside the active portion.
use serial_ip.Base.{
  ℕ, suc, ◌+◌, ◌-◌, ◌≤◌, ◌<◌, Option, some, List, [], ◌∷◌, ◌++◌, inl, inr, ◌≡◌, refl, ap, ap₂, ◌∙◌,
  arith, length, ltb, Bool-cases, length-append, nil_of_length,
}
use serial_ip.Base.Memory.{
  window, shift_left_lem, shift_right_lem, shifted_left, shifted_right, update, window-split,
  Spans-append, Spans-ext,
}
use serial_ip.Buffer.{Buffer, limit, bfinit, bfinsch, bfrmstr}
use serial_ip.Buffer.Invariant.{IsValid, Holds, length-Holds, bfinit-Holds}

-- What a removal that leaves `left` behind gives.
pub record Removed (b : Buffer) (left : List ℕ) (n : ℕ) (out : Option (ℕ × Buffer)) : Type 0 where
  pub after : Buffer
  pub returns : out ≡ some (n, after)
  pub holds : Holds after left
  pub same_size : after.size ≡ b.size
  pub same_start : 0 < length left → after.writep ≡ b.writep

abbrev removed_middle : Buffer → ℕ → ℕ → Buffer
removed_middle b ptr n = record b {
  mem = shifted_left (b.readp - (ptr + n)) ptr (ptr + n) b.mem;
  nbuffered = b.nbuffered - n;
  readp = b.readp - n;
}

-- Cutting `ys` out of the middle.
bfrmstr-middle :
    (b : Buffer) (ptr n : ℕ)
    → IsValid b
    → b.writep ≤ ptr
    → ptr + n ≤ b.readp
    → 0 < n
    → n < b.nbuffered
    → bfrmstr b ptr n ≡ some (n, removed_middle b ptr n)
unfolding bfrmstr
bfrmstr-middle b ptr n v p q r l =
    ground (arith, shift_left_lem (limit b) (b.readp - (ptr + n)) ptr (ptr + n) b.mem)

removed_middle-Holds :
    (b : Buffer) (xs ys zs : List ℕ)
    → Holds b (xs ++ (ys ++ zs))
    → length ys < b.nbuffered
    → Holds (removed_middle b (b.writep + length xs) (length ys)) (xs ++ zs)
removed_middle-Holds b xs ys zs h l =
    let (p, q, r) = window-split b.mem xs (ys ++ zs) b.writep b.nbuffered h.bytes in
    let (p', q', r') = window-split b.mem ys zs (b.writep + length xs) (length (ys ++ zs)) q in
    let v = h.valid in
    let m' = shifted_left (b.readp - (ptr + length ys)) ptr (ptr + length ys) b.mem in
    let n : b.nbuffered - length ys ≡ length xs + length zs = omega arith in
    record {
      valid = ground arith;
      bytes =
          ap (window m' b.writep) n
          ∙ Spans-append m' xs zs b.writep
              (Spans-ext b.mem m' b.writep b.writep xs (λ j lt. ground arith) p)
              (Spans-ext b.mem m' (ptr + length ys) ptr zs (λ j lt. ground arith) q');
    }
  where
    ptr : ℕ
    ptr = b.writep + length xs

parts :
    {b : Buffer} (xs ys zs : List ℕ)
    → Holds b (xs ++ (ys ++ zs))
    → b.nbuffered ≡ length xs + (length ys + length zs)
parts xs ys zs h = omega (arith, length-Holds h, length-append xs (ys ++ zs), length-append ys zs)

-- Cutting out everything resets the pointers.
bfrmstr-all :
    (b : Buffer) (ptr n : ℕ)
    → IsValid b
    → b.writep ≤ ptr
    → ptr ≤ b.readp
    → b.nbuffered ≤ n
    → bfrmstr b ptr n ≡ some (n, bfinit b)
unfolding bfrmstr
bfrmstr-all b ptr n v p q l = ground arith

bfinit_size : (b : Buffer) → (bfinit b).size ≡ b.size
unfolding bfinit
bfinit_size b = refl

pub bfrmstr-Removed :
    (b : Buffer) (xs ys zs : List ℕ)
    → Holds b (xs ++ (ys ++ zs))
    → 0 < length ys
    → Removed b (xs ++ zs) (length ys) (bfrmstr b (b.writep + length xs) (length ys))
bfrmstr-Removed b xs ys zs h pos_ys = elim (Bool-cases (ltb (length ys) b.nbuffered)) [
  | inl some_left ↦ record {
    after = removed_middle b (b.writep + length xs) (length ys);
    returns =
        bfrmstr-middle b (b.writep + length xs) (length ys) h.valid (omega arith)
          (omega (arith, parts xs ys zs h)) pos_ys (ground arith);
    holds = removed_middle-Holds b xs ys zs h (ground arith);
    same_size = refl;
    same_start = λ _. refl;
  }
  | inr none_left ↦
      let n = parts xs ys zs h in
      let xs_nil = nil_of_length xs (ground arith) in
      let zs_nil = nil_of_length zs (ground arith) in
      let left_nil : xs ++ zs ≡ [] = rw (xs_nil, zs_nil) in
      record {
        after = bfinit b;
        returns =
            bfrmstr-all b (b.writep + length xs) (length ys) h.valid (omega arith) (omega arith)
              (ground arith);
        holds = rw left_nil (bfinit-Holds b h.valid.nonempty);
        same_size = bfinit_size b;
        same_start = λ p. absurd (omega (arith, ap length left_nil));
      }
]

-- Removing a run of bytes, at least one, from the bytes of a valid buffer returns their number and
-- leaves those before and behind them in a valid buffer of the same size.
pub bfrmstr-Holds :
    (b : Buffer) (xs ys zs : List ℕ)
    → Holds b (xs ++ (ys ++ zs))
    → 0 < length ys
    → (after : Buffer) × (bfrmstr b (b.writep + length xs) (length ys) ≡ some (length ys, after))
      × Holds after (xs ++ zs)
      × (after.size ≡ b.size)
bfrmstr-Holds b xs ys zs h some_bytes =
    let r = bfrmstr-Removed b xs ys zs h some_bytes in (r.after, r.returns, r.holds, r.same_size)

-- What inserting one byte gives.
abbrev inserted : Buffer → ℕ → ℕ → Buffer
inserted b ptr ch = record b {
  mem = update (shifted_right (b.readp - ptr) ptr b.mem) ptr ch;
  nbuffered = b.nbuffered + 1;
  readp = b.readp + 1;
}

bfinsch_lem :
    (b : Buffer) (ptr ch : ℕ)
    → IsValid b
    → b.writep ≤ ptr
    → ptr ≤ b.readp
    → bfinsch b ptr ch ≡ some (1, inserted b ptr ch)
unfolding bfinsch
bfinsch_lem b ptr ch v p q = ground (arith, shift_right_lem (limit b) (b.readp - ptr) ptr b.mem)

-- In a valid buffer whose read pointer is not at the end, inserting a byte at a place among the
-- bytes held or behind them returns 1 and puts it there, the bytes behind it moving on by one; the
-- buffer stays valid and of its size.
pub bfinsch-Holds :
    (b : Buffer) (xs zs : List ℕ) (ch : ℕ)
    → Holds b (xs ++ zs)
    → b.readp < b.size
    → (after : Buffer) × (bfinsch b (b.writep + length xs) ch ≡ some (1, after))
      × Holds after (xs ++ ch ∷ zs)
      × (after.size ≡ b.size)
      × (after.writep ≡ b.writep)
      × (after.readp ≡ b.readp + 1)
bfinsch-Holds b xs zs ch h room =
    let (p, q, r) = window-split b.mem xs zs b.writep b.nbuffered h.bytes in
    let v = h.valid in
    let m' = (inserted b ptr ch).mem in
    let n : b.nbuffered + 1 ≡ length xs + suc (length zs) = omega arith in
    (
      inserted b ptr ch,
      bfinsch_lem b ptr ch v (omega arith) (omega arith),
      record {
        valid = ground arith;
        bytes =
            ap (window m' b.writep) n
            ∙ Spans-append m' xs (ch ∷ zs) b.writep
                (Spans-ext b.mem m' b.writep b.writep xs (λ j lt. ground arith) p)
                (ap₂ ◌∷◌ (ground arith)
                  (Spans-ext b.mem m' ptr (ptr + 1) zs (λ j lt. ground arith) q));
      },
      refl,
      refl,
      refl,
    )
  where
    ptr : ℕ
    ptr = b.writep + length xs
