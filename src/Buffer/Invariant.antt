-- ===== src/Buffer/Invariant.antt =====
-- The representation invariant of `struct buffer_t`, and the bytes that a valid buffer holds.
use serial_ip.Base.{ℕ, ◌+◌, ◌≤◌, ◌<◌, List, [], ◌≡◌, refl, sym, ap, ◌∙◌, arith, length}
use serial_ip.Base.Memory.{window, length-window}
use serial_ip.Buffer.{Buffer, bfinit}

-- The bytes in use lie between the pointers, an empty buffer starts at the front.
pub record IsValid (b : Buffer) : Type 0 where
  pub nonempty : 0 < b.size
  pub tail_at : b.tailp ≡ b.size
  pub between : b.writep + b.nbuffered ≡ b.readp
  pub inside : b.readp ≤ b.size
  pub reset : b.nbuffered ≡ 0 → b.writep ≡ 0

-- The active portion, oldest byte first.
abbrev pub contents : Buffer → List ℕ
contents b = window b.mem b.writep b.nbuffered

pub record Holds (b : Buffer) (xs : List ℕ) : Type 0 where
  pub valid : IsValid b
  pub bytes : contents b ≡ xs

pub length-Holds : {b : Buffer} {xs : List ℕ} → Holds b xs → length xs ≡ b.nbuffered
length-Holds {b} {xs} h = ap length (sym h.bytes) ∙ length-window b.mem b.writep b.nbuffered

pub bfinit-Holds : (b : Buffer) → 0 < b.size → Holds (bfinit b) []
unfolding bfinit
bfinit-Holds b h = record { valid = ground arith; bytes = refl }
