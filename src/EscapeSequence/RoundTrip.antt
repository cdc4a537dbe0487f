-- ===== src/EscapeSequence/RoundTrip.antt =====
-- What `escape_sequence_copy` writes.
use serial_ip.Base.{
  ℕ, zero, suc, ◌+◌, ◌/◌, ◌%◌, ◌<◌, false, some, List, [], ◌∷◌, ◌≡◌, refl, ltb, length, arith,
  ltb_of_le,
}
use serial_ip.Base.Text.{Text}
use serial_ip.EscapeSequence.{
  backslash, digit_zero, is_octal, octal_loop, retrieve_octal_escape_sequence, after_escape,
  copy_escape, copy_loop, escape_sequence_copy,
}

-- A byte as a backslash, '0' and three octal digits.
abbrev pub octal : ℕ → Text → Text
octal c cs = backslash ∷ digit_zero ∷ (48 + c / 64) ∷ (48 + c / 8 % 8) ∷ (48 + c % 8) ∷ cs

abbrev pub spelled : List ℕ → Text
spelled [] = []
spelled (x ∷ xs) = octal x (spelled xs)

abbrev pub AreBytes : List ℕ → Type 0
AreBytes [] = Unit {0}
AreBytes (x ∷ xs) = (x < 256) × AreBytes xs

octal_lem :
    (c : ℕ) (cs : Text)
    → c < 256
    → retrieve_octal_escape_sequence ((48 + c / 64) ∷ (48 + c / 8 % 8) ∷ (48 + c % 8) ∷ cs) ≡ (c, 4)
unfolding retrieve_octal_escape_sequence
octal_lem c cs h = ground arith

spelled_loop :
    (fuel : ℕ) (xs : List ℕ)
    → AreBytes xs
    → length (spelled xs) < fuel
    → copy_loop fuel (spelled xs) ≡ some xs
unfolding copy_loop copy_escape after_escape
spelled_loop zero xs a h = absurd (omega arith)
spelled_loop (suc fuel) [] a h = refl
spelled_loop (suc fuel) (x ∷ xs) a h =
    let whole : x % 256 ≡ x = omega (arith, a.0) in
    let rest = spelled_loop fuel xs a.1 (omega arith) in
    let long : ltb (suc (suc (suc (length (spelled xs))))) 3 ≡ false = ltb_of_le (omega arith) in
    rw (octal_lem x (spelled xs) a.0, long, whole, rest)

-- Any bytes, each spelled with a backslash, a zero and three octal digits, are copied as they are.
pub escape_sequence_copy-spelled :
    (xs : List ℕ) → AreBytes xs → escape_sequence_copy (spelled xs) ≡ some xs
unfolding escape_sequence_copy
escape_sequence_copy-spelled xs a = spelled_loop (suc (length (spelled xs))) xs a (omega arith)

-- A character behind a backslash and a zero that is no octal digit is lost: the copy is a zero and
-- what follows it, here any bytes in octal.
pub escape_sequence_copy-short :
    (c : ℕ) (xs : List ℕ)
    → is_octal c ≡ false
    → AreBytes xs
    → escape_sequence_copy (backslash ∷ digit_zero ∷ c ∷ spelled xs) ≡ some (0 ∷ xs)
unfolding escape_sequence_copy copy_loop copy_escape after_escape retrieve_octal_escape_sequence
    octal_loop
escape_sequence_copy-short c xs no_digit a =
    let rest = spelled_loop (suc (suc (suc (length (spelled xs))))) xs a (omega arith) in
    let long : ltb (suc (length (spelled xs))) 1 ≡ false = ltb_of_le (omega arith) in
    rw (no_digit, long, rest)
