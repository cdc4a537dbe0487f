-- ===== src/Base/Text.antt =====
-- C strings: the bytes before the terminating NUL, ASCII.
use Prim.Native.Char.{code}
use Prim.Native.String.{String}
use mathlib.Core.List.{List, [], ◌∷◌}
use mathlib.Core.Path.{◌≡◌, refl}
use mathlib.Core.Bool.{Bool, true, false}
use mathlib.Core.Logic.{◌≢◌}
use Prim.Native.Nat.{ℕ}
use native.Mathlib.Omega.{arith}
use serial_ip.Base.Tests.{◌==◌, if◌then◌else◌, ==_iff}

abbrev pub Text : Type 0
Text = List ℕ

-- The codes of a literal.
abbrev pub codes : String → Text
codes String.[] = []
codes (String.◌∷◌ c s) = code c ∷ codes s

-- `strcmp(s, t) == 0`
abbrev pub same_text : Text → Text → Bool
same_text [] [] = true
same_text [] (y ∷ ys) = false
same_text (x ∷ xs) [] = false
same_text (x ∷ xs) (y ∷ ys) = if x == y then same_text xs ys else false

pub same_text_refl : (t : Text) → same_text t t ≡ true
same_text_refl [] = refl
same_text_refl (x ∷ xs) = rw ((==_iff x x).1 refl) (same_text_refl xs)

pub eq_of_same_text : (s t : Text) → same_text s t ≡ true → s ≡ t
eq_of_same_text [] [] e = refl
eq_of_same_text [] (y ∷ ys) e = cc
eq_of_same_text (x ∷ xs) [] e = cc
eq_of_same_text (x ∷ xs) (y ∷ ys) e = ground (arith, eq_of_same_text xs ys)

pub same_text-other : (s t : Text) → s ≢ t → same_text s t ≡ false
same_text-other s t h = ground (arith, eq_of_same_text s t)
