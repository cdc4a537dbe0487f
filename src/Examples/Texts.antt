-- ===== src/Examples/Texts.antt =====
-- Escapes in configuration values, and names of codes.
use serial_ip.Base.{ℕ, some, List, [], ◌∷◌, ◌≡◌, ◌≢◌, refl, arith}
use serial_ip.EscapeSequence.{escape_sequence_copy, copy_loop, copy_escape, escape_sequence}
use serial_ip.EscapeSequence.RoundTrip.{spelled, escape_sequence_copy-spelled}

escape_sequence_copy-spelled_example :
    escape_sequence_copy (spelled (65 ∷ 92 ∷ 200 ∷ [])) ≡ some (65 ∷ 92 ∷ 200 ∷ [])
escape_sequence_copy-spelled_example =
    escape_sequence_copy-spelled (65 ∷ 92 ∷ 200 ∷ [])
      (omega arith, (omega arith, (omega arith, tt)))

-- `\nA`
abbrev escaped_a : List ℕ
escaped_a = 92 ∷ 110 ∷ 65 ∷ []

abbrev newline_a : List ℕ
newline_a = 10 ∷ 65 ∷ []

copied : escape_sequence_copy escaped_a ≡ some newline_a
unfolding escape_sequence_copy copy_loop copy_escape escape_sequence
copied = refl

different : let a : ℕ = 1 in a ≢ 101
different e = omega (arith, e)
