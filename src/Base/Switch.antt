-- ===== src/Base/Switch.antt =====
-- A `switch` over numeric labels: the value of the first label that equals the scrutinee, or the
-- default.
use Prim.Native.Nat.{ℕ}
use mathlib.Core.Path.{◌≡◌, refl}
use mathlib.Core.Bool.{Bool, true, false, ◌||◌}
use mathlib.Core.List.{List, [], ◌∷◌}
use mathlib.Core.Logic.{◌≢◌, inl, inr}
use native.Mathlib.Omega.{arith}
use serial_ip.Base.Tests.{◌==◌, if◌then◌else◌, Bool-cases}

true_is_not_false : true ≡ false → ⊥
true_is_not_false e = cc

module _ {ℓ} {A : Type ℓ} where
  abbrev pub switch : ℕ → List (ℕ × A) → A → A
  switch k [] d = d
  switch k ((c, v) ∷ cases) d = if k == c then v else switch k cases d

  -- `k` is one of the labels.
  abbrev pub has_case : ℕ → List (ℕ × A) → Bool
  has_case k [] = false
  has_case k ((c, v) ∷ cases) = k == c || has_case k cases

  -- Each value is taken back to its label by `f`.
  abbrev pub Inverts : (A → ℕ) → List (ℕ × A) → Type 0
  Inverts f [] = Unit {0}
  Inverts f ((c, v) ∷ cases) = (f v ≡ c) × Inverts f cases

  pub switch-Inverts :
      (f : A → ℕ) (k : ℕ) (cases : List (ℕ × A)) (d : A)
      → Inverts f cases
      → f (switch k cases d) ≡ (if has_case k cases then k else f d)
  switch-Inverts f k [] d h = refl
  switch-Inverts f k ((c, v) ∷ cases) d h = ground (arith, switch-Inverts f k cases d h.1)

  -- No case: the default.
  pub switch-default :
      (k : ℕ) (cases : List (ℕ × A)) (d : A) → has_case k cases ≡ false → switch k cases d ≡ d
  switch-default k [] d h = refl
  switch-default k ((c, v) ∷ cases) d h = elim (Bool-cases (k == c)) [
    | inl here ↦ absurd (true_is_not_false (rw here at h))
    | inr later ↦ rw later (switch-default k cases d (rw later at h))
  ]

  -- A result other than the default comes from a case.
  pub has_case-switch :
      (k : ℕ) (cases : List (ℕ × A)) (d : A) → switch k cases d ≢ d → has_case k cases ≡ true
  has_case-switch k [] d h = absurd (h refl)
  has_case-switch k ((c, v) ∷ cases) d h = elim (Bool-cases (k == c)) [
    | inl here ↦ rw here
    | inr later ↦ rw later (has_case-switch k cases d (rw later at h))
  ]

module _ {ℓ κ} {A : Type ℓ} {B : Type κ} where
  -- Every label of the first table is one of the second.
  abbrev pub Covers : List (ℕ × A) → List (ℕ × B) → Type 0
  Covers [] big = Unit {0}
  Covers ((c, v) ∷ small) big = (has_case c big ≡ true) × Covers small big

  pub has_case-Covers :
      (k : ℕ) (small : List (ℕ × A)) (big : List (ℕ × B))
      → Covers small big
      → has_case k small ≡ true
      → has_case k big ≡ true
  has_case-Covers k [] big h e = cc
  has_case-Covers k ((c, v) ∷ small) big h e = elim (Bool-cases (k == c)) [
    | inl here ↦ let same : k ≡ c = ground arith in rw same h.0
    | inr later ↦ has_case-Covers k small big h.1 (rw later at e)
  ]
