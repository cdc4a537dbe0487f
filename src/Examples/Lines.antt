-- ===== src/Examples/Lines.antt =====
-- A line of a configuration file.
use serial_ip.Base.{ℕ, false, Option, none, some, [], ◌∷◌, ◌++◌, ◌≡◌, ◌≢◌, ◌==◌, refl, arith}
use serial_ip.Base.Text.{Text, codes}
use serial_ip.Configuration.{ConfigEntry, TokenType, longvalue, string, parse_entry, newline}
use serial_ip.Configuration.Parsed.{IsWord, parse_entry-known}

-- A table with one keyword, for which it has the token 64.
abbrev keywords : Text → Option (TokenType × ℕ)
keywords name = some (longvalue, 64)

abbrev blank : ConfigEntry
blank = record { name = []; token = 0; type = string; value = none }

no : {a b : ℕ} → a == b ≡ false → a ≢ b
no e = ground arith

speed_IsWord : IsWord 83 (codes "peed")
speed_IsWord = record {
  starts = refl;
  ends = refl;
  one_line = (no refl, (no refl, (no refl, (no refl, (no refl, tt)))));
  no_return = (no refl, (no refl, (no refl, (no refl, (no refl, tt)))));
}

number_IsWord : IsWord 57 (codes "600")
number_IsWord = record {
  starts = refl;
  ends = refl;
  one_line = (no refl, (no refl, (no refl, (no refl, tt))));
  no_return = (no refl, (no refl, (no refl, (no refl, tt))));
}

parse_entry-known_example : parse_entry keywords (codes "Speed=9600" ++ newline ∷ []) blank ≡ (
  64,
  record { name = codes "speed"; token = 64; type = longvalue; value = some (codes "9600") },
)
parse_entry-known_example =
    parse_entry-known keywords 83 (codes "peed") 57 (codes "600") longvalue 64 blank speed_IsWord
      number_IsWord (no refl, (no refl, (no refl, (no refl, (no refl, tt))))) refl (omega arith)
      refl
