-- ===== src/Telnet/Scan.antt =====
-- `mystrchr` of utilities.c, the search for one byte.
use serial_ip.Base.{
  ℕ, zero, suc, ◌+◌, ◌≤◌, Option, none, some, List, [], ◌∷◌, ◌++◌, ◌⊎◌, inl, inr, ◌≡◌, ◌≢◌, refl,
  ap, arith, ◌==◌, if◌then◌else◌, ◌>>=◌, length, Bool-cases,
}
use serial_ip.Base.Memory.{Memory, load, window, Spans}

-- The offset found; the outer `none` is a read outside the block of `lim` bytes.
unfoldable pub mystrchr : ℕ → Memory → ℕ → ℕ → ℕ → Option (Option ℕ)
mystrchr lim m s ch zero = some none
mystrchr lim m s ch (suc size) =
    let rest = mystrchr lim m (s + 1) ch size in
    load lim m s >>= λ c. if c == ch then some (some s) else rest

-- `ch` is not among the bytes.
abbrev pub Absent : ℕ → List ℕ → Type 0
Absent ch [] = Unit {0}
Absent ch (x ∷ xs) = (x ≢ ch) × Absent ch xs

-- The bytes up to the first `ch`, and those behind it.
pub record Split (ch : ℕ) (xs : List ℕ) : Type 0 where
  pub before : List ℕ
  pub behind : List ℕ
  pub splits : xs ≡ before ++ ch ∷ behind
  pub absent : Absent ch before

pub first : (ch : ℕ) (xs : List ℕ) → Absent ch xs ⊎ Split ch xs
first ch [] = inl tt
first ch (x ∷ xs) = elim (Bool-cases (x == ch)) [
  | inl here ↦
      inr
        (record { before = []; behind = xs; splits = ap (λ y. y ∷ xs) (ground arith); absent = tt })
  | inr other ↦ elim (first ch xs) [
    | inl a ↦ inl (ground arith, a)
    | inr s ↦ inr (record {
      before = x ∷ s.before;
      behind = s.behind;
      splits = ap (◌∷◌ x) s.splits;
      absent = (ground arith, s.absent);
    })
  ]
]

pub mystrchr-Absent :
    (lim : ℕ) (m : Memory) (s ch : ℕ) (xs : List ℕ)
    → Spans m s xs
    → s + length xs ≤ lim
    → Absent ch xs
    → mystrchr lim m s ch (length xs) ≡ some none
unfolding mystrchr
mystrchr-Absent lim m s ch [] p l a = refl
mystrchr-Absent lim m s ch (x ∷ xs) p l a =
    let head : m s ≡ x = cc in
    let tail : window m (s + 1) (length xs) ≡ xs = cc in
    ground (arith, mystrchr-Absent lim m (s + 1) ch xs tail)

pub mystrchr-Split :
    (lim : ℕ) (m : Memory) (s ch : ℕ) (xs ys : List ℕ)
    → Spans m s (xs ++ ch ∷ ys)
    → s + length (xs ++ ch ∷ ys) ≤ lim
    → Absent ch xs
    → mystrchr lim m s ch (length (xs ++ ch ∷ ys)) ≡ some (some (s + length xs))
unfolding mystrchr
mystrchr-Split lim m s ch [] ys p l a = let head : m s ≡ ch = cc in ground arith
mystrchr-Split lim m s ch (x ∷ xs) ys p l a =
    let head : m s ≡ x = cc in
    let tail : window m (s + 1) (length (xs ++ ch ∷ ys)) ≡ xs ++ ch ∷ ys = cc in
    ground (arith, mystrchr-Split lim m (s + 1) ch xs ys tail)
