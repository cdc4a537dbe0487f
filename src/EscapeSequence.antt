-- ===== src/EscapeSequence.antt =====
-- escape_sequence_handle.c: the character escapes in the values of the configuration file. A C string
-- is the list of its bytes before the NUL; a pointer moved past the NUL is a fault, `none`.
pub mod RoundTrip
pub mod Bounds
use serial_ip.Base.{
  ℕ, zero, suc, ◌+◌, ◌-◌, ◌*◌, ◌%◌, Bool, true, false, ◌&&◌, ◌||◌, Option, none, some, List, [],
  ◌∷◌, ◌==◌, ltb, leb, if◌then◌else◌, ◌>>=◌, length, drop,
}
use serial_ip.Base.Switch.{switch}
use serial_ip.Base.Text.{Text}

-- `'\\'`, `'0'` and `'x'`
abbrev pub backslash : ℕ
backslash = 92

abbrev pub digit_zero : ℕ
digit_zero = 48

abbrev pub letter_x : ℕ
letter_x = 120

abbrev pub is_octal : ℕ → Bool
is_octal c = leb 48 c && leb c 55

-- `isxdigit`
abbrev pub is_hex : ℕ → Bool
is_hex c = leb 48 c && leb c 57 || leb 65 c && leb c 70 || leb 97 c && leb c 102

-- The loop, `k` rounds being left before `*len` is 4: the value, and `*len`. The NUL is no digit.
unfoldable pub octal_loop : ℕ → ℕ → ℕ → Text → ℕ × ℕ
octal_loop zero value len s = (value, len)
octal_loop (suc k) value len [] = (value, len + 1)
octal_loop (suc k) value len (c ∷ cs) =
    let rest = octal_loop k (value * 8 + (c - 48)) (len + 1) cs in
    if is_octal c then rest else (value, len + 1)

-- `s` is the string behind the '0'.
unfoldable pub retrieve_octal_escape_sequence : Text → ℕ × ℕ
unfolding octal_loop
retrieve_octal_escape_sequence s =
    let (value, len) = octal_loop 3 0 1 s in if len == 1 then (digit_zero, len) else (value, len)

-- Upper case is folded, and '0' is what is taken off, of a letter too.
abbrev pub hex_digit : ℕ → ℕ
hex_digit c = if leb 65 c && leb c 90 then c + 97 - 65 - 48 else c - 48

unfoldable pub hex_loop : ℕ → ℕ → ℕ → Text → ℕ × ℕ
hex_loop zero value len s = (value, len)
hex_loop (suc k) value len [] = (value, len)
hex_loop (suc k) value len (c ∷ cs) =
    let rest = hex_loop k (value * 16 + hex_digit c) (len + 1) cs in
    if is_hex c then rest else (value, len)

-- `s` is the string behind the 'x'.
unfoldable pub retrieve_hex_escape_sequence : Text → ℕ × ℕ
unfolding hex_loop
retrieve_hex_escape_sequence s =
    let (value, len) = hex_loop 2 0 1 s in if len == 1 then (letter_x, len) else (value, len)

unfoldable pub escape_sequence : ℕ → ℕ
escape_sequence c =
    switch c ((97, 7) ∷ (98, 8) ∷ (102, 12) ∷ (110, 10) ∷ (114, 13) ∷ (116, 9) ∷ (118, 11) ∷ []) c

-- `*s1++ = value; s2 += len;` where `s2` stands `len` bytes before the end of `c ∷ cs` at most.
unfoldable pub after_escape : (Text → Option Text) → ℕ × ℕ → Text → Option Text
after_escape copy (value, len) cs =
    if ltb (length cs) (len - 1)
    then none
    else copy (drop (len - 1) cs) >>= λ t. some (value % 256 ∷ t)

-- the switch behind a backslash
unfoldable pub copy_escape : (Text → Option Text) → Text → Option Text
unfolding after_escape
copy_escape copy [] = some []
copy_escape copy (c ∷ cs) =
    if c == digit_zero
    then after_escape copy (retrieve_octal_escape_sequence cs) cs
    else if c == letter_x
    then after_escape copy (retrieve_hex_escape_sequence cs) cs
    else copy cs >>= λ t. some (escape_sequence c ∷ t)

-- The `while` loop on fuel: what is written to `s1`, before the NUL.
unfoldable pub copy_loop : ℕ → Text → Option Text
copy_loop zero s = none
copy_loop (suc fuel) [] = some []
copy_loop (suc fuel) (c ∷ cs) =
    if c == backslash
    then copy_escape (copy_loop fuel) cs
    else copy_loop fuel cs >>= λ t. some (c ∷ t)

unfoldable pub escape_sequence_copy : Text → Option Text
escape_sequence_copy s2 = copy_loop (suc (length s2)) s2
