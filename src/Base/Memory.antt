-- ===== src/Base/Memory.antt =====
-- A block of allocated bytes: a function of the offset and the number of bytes allocated. An access
-- at or past the end is a fault. The loops that move bytes inside one block are those of the C code.
use Prim.Native.Nat.{ℕ, zero, suc, ◌+◌, ◌-◌, ◌≤◌, ◌<◌}
use mathlib.Core.Path.{◌≡◌, refl, subst, ap, ap₂, ◌∙◌, fun_ext}
use mathlib.Core.Bool.{◌&&◌}
use mathlib.Core.Option.{Option, none, some}
use mathlib.Core.List.{List, [], ◌∷◌, ◌++◌}
use Prim.Native.Nat.add
use native.Mathlib.Nat.{add-zero}
use native.Mathlib.Omega.{arith}
use serial_ip.Base.Tests.{ltb, leb, ltb_of_lt, ◌==◌, if◌then◌else◌, ◌>>=◌, Bool-cases}
use mathlib.Core.Logic.{inl, inr}
use serial_ip.Base.Lists.{length, get_or, get_or-cons}

abbrev pub Memory : Type 0
Memory = ℕ → ℕ

abbrev pub update : Memory → ℕ → ℕ → Memory
update m i v j = if i == j then v else m j

-- `*p` and `*p = v` in a block of `limit` bytes.
abbrev pub load : ℕ → Memory → ℕ → Option ℕ
load limit m i = if ltb i limit then some (m i) else none

abbrev pub store : ℕ → Memory → ℕ → ℕ → Option Memory
store limit m i v = if ltb i limit then some (update m i v) else none

-- The bytes `m[s] … m[s + n - 1]`.
abbrev pub window : Memory → ℕ → ℕ → List ℕ
window m s zero = []
window m s (suc n) = m s ∷ window m (s + 1) n

-- `s = end - 1; while (s >= ptr) { *(s+1) = *s; s--; }`, `k` rounds being left at `s = ptr + k - 1`.
unfoldable pub shift_right : ℕ → ℕ → ℕ → Memory → Option Memory
shift_right limit zero ptr m = some m
shift_right limit (suc k) ptr m = do
  v ← load limit m (ptr + k)
  m' ← store limit m (ptr + k + 1) v
  shift_right limit k ptr m'

-- `while (s < end) *ptr++ = *s++;`, `k` rounds being left.
unfoldable pub shift_left : ℕ → ℕ → ℕ → ℕ → Memory → Option Memory
shift_left limit zero ptr s m = some m
shift_left limit (suc k) ptr s m = do
  v ← load limit m s
  m' ← store limit m ptr v
  shift_left limit k (ptr + 1) (s + 1) m'

-- `memcpy(ptr, bytes, n)` from an object apart.
unfoldable pub copy_in : ℕ → ℕ → List ℕ → Memory → Option Memory
copy_in limit ptr [] m = some m
copy_in limit ptr (b ∷ bs) m = do m' ← store limit m ptr b; copy_in limit (ptr + 1) bs m'

-- What the three loops leave at each offset.
abbrev pub shifted_right : ℕ → ℕ → Memory → Memory
shifted_right k ptr m j = if ltb ptr j && leb j (ptr + k) then m (j - 1) else m j

abbrev pub shifted_left : ℕ → ℕ → ℕ → Memory → Memory
shifted_left k ptr s m j = if leb ptr j && ltb j (ptr + k) then m (j + s - ptr) else m j

abbrev pub copied_in : ℕ → List ℕ → Memory → Memory
copied_in ptr bs m j = if leb ptr j && ltb j (ptr + length bs) then get_or bs (j - ptr) 0 else m j

pub window-ext :
    (n s t : ℕ) (m m' : Memory)
    → ((j : ℕ) → j < n → m (s + j) ≡ m' (t + j))
    → window m s n ≡ window m' t n
window-ext zero s t m m' h = refl
window-ext (suc n) s t m m' h =
    ap₂ ◌∷◌ (ground (arith, h 0))
      (window-ext n (s + 1) (t + 1) m m' (λ j lt. ground (arith, h (suc j))))

pub length-window : (m : Memory) (s n : ℕ) → length (window m s n) ≡ n
length-window m s zero = refl
length-window m s (suc n) = ap suc (length-window m (s + 1) n)

pub window-add : (m : Memory) (s a b : ℕ) → window m s (a + b) ≡ window m s a ++ window m (s + a) b
window-add m s zero b = rw (add.zero b, add-zero s)
window-add m s (suc a) b = rw (add.suc a b) (
    ap (◌∷◌ (m s))
      (window-add m (s + 1) a b ∙ ap (λ t. window m (s + 1) a ++ window m t b) (omega arith)))

pub window-get_or :
    (bs : List ℕ) (s : ℕ) (m : Memory)
    → ((j : ℕ) → j < length bs → m (s + j) ≡ get_or bs j 0)
    → window m s (length bs) ≡ bs
window-get_or [] s m h = refl
window-get_or (b ∷ bs) s m h =
    ap₂ ◌∷◌ (ground (arith, h 0)) (window-get_or bs (s + 1) m (λ j lt. ground (arith, h (suc j))))

pub shift_right_lem :
    (limit k ptr : ℕ) (m : Memory)
    → ptr + k < limit
    → shift_right limit k ptr m ≡ some (shifted_right k ptr m)
unfolding shift_right
shift_right_lem limit zero ptr m h = ap some (fun_ext λ j. ground arith)
shift_right_lem limit (suc k) ptr m h =
    rw
      (
        ltb_of_lt {a = ptr + k} {b = limit} (omega arith),
        ltb_of_lt {a = ptr + k + 1} {b = limit} (omega arith),
      )
      (shift_right_lem limit k ptr (update m (ptr + k + 1) (m (ptr + k))) (omega arith)
        ∙ ap some (fun_ext λ j. ground arith))

pub shift_left_lem :
    (limit k ptr s : ℕ) (m : Memory)
    → s + k ≤ limit
    → ptr ≤ s
    → shift_left limit k ptr s m ≡ some (shifted_left k ptr s m)
unfolding shift_left
shift_left_lem limit zero ptr s m h lt = ap some (fun_ext λ j. ground arith)
shift_left_lem limit (suc k) ptr s m h lt =
    rw (ltb_of_lt {a = s} {b = limit} (omega arith), ltb_of_lt {a = ptr} {b = limit} (omega arith))
      (shift_left_lem limit k (ptr + 1) (s + 1) (update m ptr (m s)) (omega arith) (omega arith)
        ∙ ap some (fun_ext λ j. ground arith))

pub copy_in_lem :
    (limit ptr : ℕ) (bs : List ℕ) (m : Memory)
    → ptr + length bs ≤ limit
    → copy_in limit ptr bs m ≡ some (copied_in ptr bs m)
unfolding copy_in
copy_in_lem limit ptr [] m h = ap some (fun_ext λ j. ground arith)
copy_in_lem limit ptr (b ∷ bs) m h = rw (ltb_of_lt {a = ptr} {b = limit} (omega arith)) (
    copy_in_lem limit (ptr + 1) bs (update m ptr b) (omega arith)
    ∙ ap some (fun_ext λ j. ground (arith, get_or-cons b bs (j - ptr) 0)))

-- Copying past the end of the block is a fault.
pub copy_in_fault :
    (limit ptr : ℕ) (bs : List ℕ) (m : Memory)
    → ptr ≤ limit
    → limit < ptr + length bs
    → copy_in limit ptr bs m ≡ none
unfolding copy_in
copy_in_fault limit ptr [] m in_block h = absurd (omega arith)
copy_in_fault limit ptr (b ∷ bs) m in_block h = elim (Bool-cases (ltb ptr limit)) [
  | inl inside ↦
      rw inside (copy_in_fault limit (ptr + 1) bs (update m ptr b) (ground arith) (omega arith))
  | inr outside ↦ rw outside
]

-- The block holds `xs` from offset `s` on.
abbrev pub Spans : Memory → ℕ → List ℕ → Type 0
Spans m s xs = window m s (length xs) ≡ xs

pub window-split :
    (m : Memory) (xs ys : List ℕ) (s n : ℕ)
    → window m s n ≡ xs ++ ys
    → Spans m s xs × Spans m (s + length xs) ys × (n ≡ length xs + length ys)
window-split m [] ys s n e =
    let n' : n ≡ 0 + length ys = omega (arith, ap length e, length-window m s n) in
    let l : length ys ≡ n = omega arith in (refl, rw (add-zero s) (ap (window m s) l ∙ e), n')
window-split m (x ∷ xs) ys s zero e = absurd (omega (arith, ap length e))
window-split m (x ∷ xs) ys s (suc n) e =
    let (p, q, r) = window-split m xs ys (s + 1) n (cc) in
    (ap₂ ◌∷◌ (cc) p, subst (λ t. Spans m t ys) (omega arith) q, omega arith)

pub Spans-append :
    (m : Memory) (xs ys : List ℕ) (s : ℕ)
    → Spans m s xs
    → Spans m (s + length xs) ys
    → window m s (length xs + length ys) ≡ xs ++ ys
Spans-append m xs ys s p q = window-add m s (length xs) (length ys) ∙ ap₂ ◌++◌ p q

pub Spans-ext :
    (m m' : Memory) (s t : ℕ) (xs : List ℕ)
    → ((j : ℕ) → j < length xs → m' (t + j) ≡ m (s + j))
    → Spans m s xs
    → Spans m' t xs
Spans-ext m m' s t xs h p = window-ext (length xs) t s m' m h ∙ p
