-- ===== src/Configuration/Parsed.antt =====
-- What `parse_entry` reads.
use serial_ip.Base.{
  ℕ, ◌≤◌, false, ◌||◌, Option, some, [], ◌∷◌, ◌++◌, ◌≡◌, refl, ap, ap₂, ◌∙◌, ◌==◌, arith, length,
  take-of_le,
}
use serial_ip.Base.Text.{Text}
use serial_ip.Configuration.{
  ConfigEntry, TokenType, is_space, cut_at, newline, carriage_return, remove_feedline_from_string,
  remove_carriage_return_from_string, skip_white_space, retrieve_configuration_entry_name, keep,
  string_to_lower, split_equals, looked_up, keyword_name, with_value, parse_keyword, parse_line,
  parse_entry,
}
use serial_ip.Telnet.Scan.{Absent}

cut_at-Absent : (ch : ℕ) (xs : Text) → Absent ch xs → cut_at ch xs ≡ xs
unfolding cut_at
cut_at-Absent ch [] a = refl
cut_at-Absent ch (x ∷ xs) a = ground (arith, cut_at-Absent ch xs a.1)

cut_at-here : (ch : ℕ) (xs ys : Text) → Absent ch xs → cut_at ch (xs ++ ch ∷ ys) ≡ xs
unfolding cut_at
cut_at-here ch [] ys a = ground arith
cut_at-here ch (x ∷ xs) ys a = ground (arith, cut_at-here ch xs ys a.1)

split_equals-Absent :
    (key rest : Text) → Absent 61 key → split_equals (key ++ 61 ∷ rest) ≡ some (key, rest)
unfolding split_equals
split_equals-Absent [] rest a = refl
split_equals-Absent (k ∷ ks) rest a =
    let other : k == 61 ≡ false = ground arith in rw (other, split_equals-Absent ks rest a.1)

Absent-append : (ch : ℕ) (xs ys : Text) → Absent ch xs → Absent ch ys → Absent ch (xs ++ ys)
Absent-append ch [] ys a b = b
Absent-append ch (x ∷ xs) ys a b = (a.0, Absent-append ch xs ys a.1 b)

-- The last of the bytes `c` and `cs`.
abbrev pub last_of : ℕ → Text → ℕ
last_of c [] = c
last_of c (d ∷ ds) = last_of d ds

-- A text whose last byte is no white space is kept whole.
retrieve_configuration_entry_name-kept :
    (c : ℕ) (cs : Text)
    → is_space (last_of c cs) ≡ false
    → retrieve_configuration_entry_name (c ∷ cs) ≡ c ∷ cs
unfolding retrieve_configuration_entry_name
retrieve_configuration_entry_name-kept c [] h = rw h refl
retrieve_configuration_entry_name-kept c (d ∷ ds) h =
    ap (keep c) (retrieve_configuration_entry_name-kept d ds h)

-- A text of one line that starts with `c`, does not start or end with white space, and has no line end.
pub record IsWord (c : ℕ) (cs : Text) : Type 0 where
  pub starts : is_space c ≡ false
  pub ends : is_space (last_of c cs) ≡ false
  pub one_line : Absent newline (c ∷ cs)
  pub no_return : Absent carriage_return (c ∷ cs)

-- The line without its end.
stripped :
    (c : ℕ) (cs : Text)
    → is_space c ≡ false
    → Absent newline (c ∷ cs)
    → Absent carriage_return (c ∷ cs)
    → skip_white_space (
        remove_carriage_return_from_string (remove_feedline_from_string ((c ∷ cs) ++ newline ∷ [])))
      ≡ c ∷ cs
unfolding remove_feedline_from_string remove_carriage_return_from_string skip_white_space
stripped c cs start one two =
    ap (λ t. skip_white_space (cut_at carriage_return t)) (cut_at-here newline (c ∷ cs) [] one)
    ∙ ap skip_white_space (cut_at-Absent carriage_return (c ∷ cs) two)
    ∙ rw start refl

no_space : (c : ℕ) (cs : Text) → is_space c ≡ false → skip_white_space (c ∷ cs) ≡ c ∷ cs
unfolding skip_white_space
no_space c cs start = rw start refl

-- The name and the value between which '=' stood.
parse_keyword-known :
    (hsearch : Text → Option (TokenType × ℕ)) (k : ℕ) (ks : Text) (v : ℕ) (vs : Text)
    → (type : TokenType) (token : ℕ) (entry : ConfigEntry) → IsWord k ks
    → IsWord v vs
    → length (k ∷ ks) ≤ 63
    → hsearch (string_to_lower (k ∷ ks)) ≡ some (type, token)
    → parse_keyword hsearch (some (k ∷ ks, v ∷ vs)) entry ≡ (
      token,
      record { name = string_to_lower (k ∷ ks); token = token; type = type; value = some (v ∷ vs) },
    )
unfolding parse_keyword looked_up with_value
parse_keyword-known hsearch k ks v vs type token entry key val short known =
    let name : keyword_name (k ∷ ks) ≡ string_to_lower (k ∷ ks) =
      ap (λ t. string_to_lower (retrieve_configuration_entry_name t)) (take-of_le 63 (k ∷ ks) short)
      ∙ ap string_to_lower (retrieve_configuration_entry_name-kept k ks key.ends) in
    let value : retrieve_configuration_entry_name (skip_white_space (v ∷ vs)) ≡ v ∷ vs =
      ap retrieve_configuration_entry_name (no_space v vs val.starts)
      ∙ retrieve_configuration_entry_name-kept v vs val.ends in
    ap₂ (λ n t. with_value (looked_up hsearch n entry) t) name value ∙ rw (known, looked_up) refl

-- A line `key=value`, ended by a newline, whose key has at most 63 characters, no '=' and no '#'
-- or ';' in front, is in the table of keywords in its lower-case form, and whose key and value
-- neither start nor end with white space nor have a line end in them, gives the keyword's token,
-- and the entry with the lower-case name, the keyword's token and type and the value.
pub parse_entry-known :
    (hsearch : Text → Option (TokenType × ℕ)) (k : ℕ) (ks : Text) (v : ℕ) (vs : Text)
    → (type : TokenType) (token : ℕ) (entry : ConfigEntry) → IsWord k ks
    → IsWord v vs
    → Absent 61 (k ∷ ks)
    → (k == 35 || k == 59) ≡ false
    → length (k ∷ ks) ≤ 63
    → hsearch (string_to_lower (k ∷ ks)) ≡ some (type, token)
    → parse_entry hsearch (((k ∷ ks) ++ 61 ∷ v ∷ vs) ++ newline ∷ []) entry ≡ (
      token,
      record { name = string_to_lower (k ∷ ks); token = token; type = type; value = some (v ∷ vs) },
    )
unfolding parse_entry parse_line
parse_entry-known hsearch k ks v vs type token entry key val no_equals no_comment short known =
    let line : Text = (k ∷ ks) ++ 61 ∷ v ∷ vs in
    let one : Absent newline line =
      Absent-append newline (k ∷ ks) (61 ∷ v ∷ vs) key.one_line
        ((λ e. absurd (omega (arith, e))), val.one_line) in
    let two : Absent carriage_return line =
      Absent-append carriage_return (k ∷ ks) (61 ∷ v ∷ vs) key.no_return
        ((λ e. absurd (omega (arith, e))), val.no_return) in
    ap (λ t. parse_line hsearch t entry) (stripped k (ks ++ 61 ∷ v ∷ vs) key.starts one two)
    ∙ rw (no_comment, split_equals-Absent (k ∷ ks) (v ∷ vs) no_equals)
        (parse_keyword-known hsearch k ks v vs type token entry key val short known)
