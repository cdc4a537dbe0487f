-- ===== src/EscapeSequence/Bounds.antt =====
-- How much `escape_sequence_copy` writes.
use serial_ip.Base.{
  ℕ, zero, suc, ◌+◌, ◌-◌, ◌%◌, ◌≤◌, Option, none, some, [], ◌∷◌, ◌≡◌, refl, inl, inr, arith, ◌==◌,
  ltb, ◌>>=◌, length, drop, length-drop, Bool-cases,
}
use serial_ip.Base.Text.{Text}
use serial_ip.EscapeSequence.{
  backslash, digit_zero, letter_x, retrieve_octal_escape_sequence, retrieve_hex_escape_sequence,
  after_escape, copy_escape, copy_loop, escape_sequence, escape_sequence_copy,
}

-- A copier writes no more than it reads.
abbrev IsShrinking : (Text → Option Text) → Type 0
IsShrinking copy = (s t : Text) → copy s ≡ some t → length t ≤ length s

-- What follows one character written was written by a copy.
behind :
    (o : Option Text) (x : ℕ) (t : Text)
    → (o >>= λ u. some (x ∷ u)) ≡ some t
    → (u : Text) × (o ≡ some u) × (length t ≡ length u + 1)
behind none x t e = absurd (cc)
behind (some u) x t e = let same : t ≡ x ∷ u = cc in (u, refl, rw same (omega arith))

no_result : {t : Text} → none ≡ some t → ⊥
no_result e = cc

module _ (copy : Text → Option Text) (shrinks : IsShrinking copy) where
  after_escape-length :
      (value len : ℕ) (cs t : Text)
      → after_escape copy (value, len) cs ≡ some t
      → length t ≤ suc (length cs)
  unfolding after_escape
  after_escape-length value len cs t e = elim (Bool-cases (ltb (length cs) (len - 1))) [
    | inl past ↦ absurd (no_result (rw past at e))
    | inr inside ↦
        let (u, acts, n) = behind (copy (drop (len - 1) cs)) (value % 256) t (rw inside at e) in
        omega (arith, shrinks (drop (len - 1) cs) u acts, length-drop (len - 1) cs)
  ]

  copy_escape-length : (s t : Text) → copy_escape copy s ≡ some t → length t ≤ length s
  unfolding copy_escape
  copy_escape-length [] t e = let same : t ≡ [] = cc in rw same (omega arith)
  copy_escape-length (c ∷ cs) t e = elim (Bool-cases (c == digit_zero)) [
    | inl octal ↦
        let (value, len) = retrieve_octal_escape_sequence cs in
        after_escape-length value len cs t (rw octal at e)
    | inr other ↦ elim (Bool-cases (c == letter_x)) [
      | inl hex ↦
          let (value, len) = retrieve_hex_escape_sequence cs in
          after_escape-length value len cs t (rw (other, hex) at e)
      | inr plain ↦
          let (u, acts, n) = behind (copy cs) (escape_sequence c) t (rw (other, plain) at e) in
          omega (arith, shrinks cs u acts)
    ]
  ]

copy_loop-length : (fuel : ℕ) → IsShrinking (copy_loop fuel)
unfolding copy_loop
copy_loop-length zero s t e = absurd (cc)
copy_loop-length (suc fuel) [] t e = let same : t ≡ [] = cc in rw same (omega arith)
copy_loop-length (suc fuel) (c ∷ cs) t e = elim (Bool-cases (c == backslash)) [
  | inl escape ↦
      omega
        (arith, copy_escape-length (copy_loop fuel) (copy_loop-length fuel) cs t (rw escape at e))
  | inr plain ↦
      let (u, acts, n) = behind (copy_loop fuel cs) c t (rw plain at e) in
      omega (arith, copy_loop-length fuel cs u acts)
]

-- What `escape_sequence_copy` writes is never longer than the value copied.
pub escape_sequence_copy-length :
    (s t : Text) → escape_sequence_copy s ≡ some t → length t ≤ length s
unfolding escape_sequence_copy
escape_sequence_copy-length s t e = copy_loop-length (suc (length s)) s t e
