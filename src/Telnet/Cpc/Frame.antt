-- ===== src/Telnet/Cpc/Frame.antt =====
-- What `send_telnet_cpc_suboption` puts into its array, and what `process_telnet_cpc_suboption`
-- reads back from it.
use serial_ip.Base.{
  ℕ, suc, ◌+◌, ◌≤◌, ◌<◌, some, false, List, [], ◌∷◌, ◌++◌, ◌≡◌, refl, ap, ◌∙◌, inl, inr,
  append_assoc, arith, length, length-append, take, get_or, min, ◌==◌, ltb, Bool-cases, leb,
  ltb_of_le,
}
use serial_ip.Telnet.Codes.{iac, sb, se, telopt_com_port_option, max_telnet_cpc_command_len}
use serial_ip.Telnet.Cpc.{escape_content, trimmed, cpc_optstr, unescape, find_byte, cpc_command}
use serial_ip.Telnet.Escaping.Doubled.{doubled}
use serial_ip.Telnet.Scan.{Absent}

-- The loop never stores more than two bytes past the limit.
escape_content-length :
    (size : ℕ) (content : List ℕ)
    → size ≤ max_telnet_cpc_command_len
    → size + length (escape_content size content) ≤ max_telnet_cpc_command_len + 1
unfolding escape_content
escape_content-length size [] h = omega arith
escape_content-length size (c ∷ cs) h =
    ground (arith, escape_content-length (size + 1) cs, escape_content-length (size + 2) cs)

-- While the doubled content fits, it is stored whole.
escape_content-doubled :
    (size : ℕ) (content : List ℕ)
    → size + length (doubled content) ≤ max_telnet_cpc_command_len
    → escape_content size content ≡ doubled content
unfolding escape_content
escape_content-doubled size [] h = refl
escape_content-doubled size (c ∷ cs) h =
    ground (arith, escape_content-doubled (size + 1) cs, escape_content-doubled (size + 2) cs)

length-doubled : (xs : List ℕ) → length xs ≤ length (doubled xs)
length-doubled [] = omega arith
length-doubled (x ∷ xs) = ground (arith, length-doubled xs)

unescape-plain : (x : ℕ) (ys : List ℕ) → x == iac ≡ false → unescape (x ∷ ys) ≡ x ∷ unescape ys
unfolding unescape
unescape-plain x [] e = refl
unescape-plain x (y ∷ ys) e = rw e

-- Taking the second IAC of each pair out undoes the doubling.
pub unescape-doubled : (xs : List ℕ) → unescape (doubled xs) ≡ xs
unfolding unescape
unescape-doubled [] = refl
unescape-doubled (x ∷ xs) = elim (Bool-cases (x == iac)) [
  | inl e ↦ let same : x ≡ iac = ground arith in rw (same, unescape-doubled xs)
  | inr e ↦ rw e (unescape-plain x (doubled xs) e ∙ ap (◌∷◌ x) (unescape-doubled xs))
]

doubled_no_se : (xs : List ℕ) → Absent se xs → Absent se (doubled xs)
doubled_no_se [] a = tt
doubled_no_se (x ∷ xs) a = elim (Bool-cases (x == iac)) [
  | inl e ↦ rw e (omega arith, (omega arith, doubled_no_se xs a.1))
  | inr e ↦ rw e (a.0, doubled_no_se xs a.1)
]

find_byte-se :
    (xs ys : List ℕ) → Absent se xs → find_byte se (xs ++ iac ∷ se ∷ ys) ≡ some (suc (length xs))
unfolding find_byte
find_byte-se [] ys a = refl
find_byte-se (x ∷ xs) ys a = ground (arith, find_byte-se xs ys a.1)

get_or-middle : (xs ys : List ℕ) (y d : ℕ) → get_or (xs ++ y ∷ ys) (length xs) d ≡ y
get_or-middle [] ys y d = refl
get_or-middle (x ∷ xs) ys y d = get_or-middle xs ys y d

take-front : (xs ys : List ℕ) → take (length xs) (xs ++ ys) ≡ xs
take-front [] ys = refl
take-front (x ∷ xs) ys = ap (◌∷◌ x) (take-front xs ys)

-- A suboption code, a content escaped, and IAC SE are read as that code and that content, whatever
-- follows.
pub cpc_command-frame :
    (suboptcode : ℕ) (content tail : List ℕ)
    → Absent se content
    → length (doubled content) ≤ 255
    → cpc_command (suboptcode ∷ (doubled content ++ iac ∷ se ∷ tail))
      ≡ some (some (suboptcode, content))
unfolding cpc_command
cpc_command-frame suboptcode content tail a fits =
    let rest : List ℕ = doubled content ++ iac ∷ se ∷ tail in
    let long : ltb (suc (length rest)) 3 ≡ false =
      ltb_of_le (omega (arith, length-append (doubled content) (iac ∷ se ∷ tail))) in
    let cut : min (length (doubled content)) 255 ≡ length (doubled content) = omega arith in
    rw (
      long,
      find_byte-se (doubled content) tail (doubled_no_se content a),
      get_or-middle (doubled content) (se ∷ tail) iac 0,
      cut,
      take-front (doubled content) (iac ∷ se ∷ tail),
      unescape-doubled content,
    )

-- For any content the option string is at least five bytes shorter than its array of
-- MAX_TELNET_CPC_COMMAND_LEN + 8 bytes.
pub cpc_optstr-length :
    (suboptcode : ℕ) (content : List ℕ)
    → length (cpc_optstr suboptcode content) + 5 ≤ max_telnet_cpc_command_len + 8
unfolding cpc_optstr
cpc_optstr-length suboptcode content = omega (
  arith,
  length-append (escape_content 4 (trimmed content)) (iac ∷ se ∷ []),
  escape_content-length 4 (trimmed content),
)

leb-false : (a b : ℕ) → b < a → leb a b ≡ false
leb-false a b h = ground arith

trimmed_lem : (content : List ℕ) → length content ≤ 252 → trimmed content ≡ content
trimmed_lem content h =
    rw (leb-false max_telnet_cpc_command_len (length content) (omega arith)) refl

-- A content without SE that has, with its IACs doubled, at most 252 bytes is sent as IAC SB
-- COM-PORT-OPTION and a string from which, whatever follows it, the suboption code and the content
-- are read back.
pub cpc_command-cpc_optstr :
    (suboptcode : ℕ) (content tail : List ℕ)
    → Absent se content
    → 4 + length (doubled content) ≤ max_telnet_cpc_command_len
    → (rest : List ℕ) × (cpc_optstr suboptcode content ≡ iac ∷ sb ∷ telopt_com_port_option ∷ rest)
      × (cpc_command (rest ++ tail) ≡ some (some (suboptcode, content)))
unfolding cpc_optstr
cpc_command-cpc_optstr suboptcode content tail a fits =
    let short : length content ≤ 252 = omega (arith, length-doubled content) in
    let whole : trimmed content ≡ content = trimmed_lem content short in
    (
      suboptcode ∷ (doubled content ++ iac ∷ se ∷ []),
      rw (whole, escape_content-doubled 4 content fits),
      ap (λ ys. cpc_command (suboptcode ∷ ys)) (append_assoc (doubled content) (iac ∷ se ∷ []) tail)
          ∙ cpc_command-frame suboptcode content tail a (omega arith),
    )
