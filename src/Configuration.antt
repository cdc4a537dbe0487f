-- ===== src/Configuration.antt =====
-- Reading one line of the configuration file: `parse_entry` of utilities.c and the string functions
-- that it calls. A string is the list of its bytes before the NUL.
pub mod Parsed
pub mod Value
pub mod Content
pub mod Actions
pub mod File
pub mod Sane
use serial_ip.Base.{
  ℕ, zero, suc, ◌+◌, ◌-◌, Bool, true, false, ◌&&◌, ◌||◌, Option, none, some, List, [], ◌∷◌, map,
  leb, ◌==◌, if◌then◌else◌, take,
}
use serial_ip.Base.Text.{Text}

-- `isspace` and `tolower` in the C locale
abbrev pub is_space : ℕ → Bool
is_space c = c == 32 || leb 9 c && leb c 13

abbrev pub tolower : ℕ → ℕ
tolower c = if leb 65 c && leb c 90 then c + 32 else c

-- The string cut off at the first `ch`, by a NUL put there.
unfoldable pub cut_at : ℕ → Text → Text
cut_at ch [] = []
cut_at ch (c ∷ cs) = let rest = cut_at ch cs in if c == ch then [] else c ∷ rest

abbrev pub newline : ℕ
newline = 10

abbrev pub carriage_return : ℕ
carriage_return = 13

unfoldable pub remove_feedline_from_string : Text → Text
unfolding cut_at
remove_feedline_from_string str = cut_at newline str

unfoldable pub remove_carriage_return_from_string : Text → Text
unfolding cut_at
remove_carriage_return_from_string str = cut_at carriage_return str

unfoldable pub skip_white_space : Text → Text
skip_white_space [] = []
skip_white_space (c ∷ cs) = let rest = skip_white_space cs in if is_space c then rest else c ∷ cs

-- A character in front of what is kept of the rest.
abbrev pub keep : ℕ → Text → Text
keep c [] = if is_space c then [] else c ∷ []
keep c (d ∷ ds) = c ∷ d ∷ ds

-- White space at the end is cut off.
unfoldable pub retrieve_configuration_entry_name : Text → Text
retrieve_configuration_entry_name [] = []
retrieve_configuration_entry_name (c ∷ cs) = keep c (retrieve_configuration_entry_name cs)

abbrev pub string_to_lower : Text → Text
string_to_lower = map tolower

-- The bytes before the first '=', and those behind it.
unfoldable pub split_equals : Text → Option (Text × Text)
split_equals [] = none
split_equals (c ∷ cs) =
    let rest = split_equals cs in
    if c == 61
    then some ([], cs)
    else elim rest [ none ↦ none | some (name, value) ↦ some (c ∷ name, value) ]

-- the token types
pub data TokenType : Type 0 where
  longvalue boolean printfstring string value : TokenType

-- `struct config_entry`
pub record ConfigEntry : Type 0 where
  pub name : Text
  pub token : ℕ
  pub type : TokenType
  pub value : Option Text

-- UNKNOWN, INVALID, COMMENT and BLANKLINE
abbrev pub unknown : ℕ
unknown = 1

abbrev pub invalid : ℕ
invalid = 2

abbrev pub comment : ℕ
comment = 4

abbrev pub blankline : ℕ
blankline = 8

abbrev pub size_keyword : ℕ
size_keyword = 64

-- The entry with the name, and the type and token that the table of keywords has for it.
unfoldable pub looked_up : (Text → Option (TokenType × ℕ)) → Text → ConfigEntry → ConfigEntry
looked_up hsearch name entry = elim (hsearch name) [
  | none ↦ record entry { name = name; type = string; token = unknown }
  | some (type, token) ↦ record entry { name = name; type = type; token = token }
]

abbrev pub keyword_name : Text → Text
keyword_name key = string_to_lower (retrieve_configuration_entry_name (take (size_keyword - 1) key))

-- behind the '='; nothing but white space is no value
unfoldable pub with_value : ConfigEntry → Text → ℕ × ConfigEntry
with_value entry [] = (invalid, entry)
with_value entry (c ∷ cs) = (entry.token, record entry { value = some (c ∷ cs) })

-- behind the search for '='
unfoldable pub parse_keyword :
    (Text → Option (TokenType × ℕ)) → Option (Text × Text) → ConfigEntry → ℕ × ConfigEntry
unfolding looked_up with_value skip_white_space
parse_keyword hsearch none entry = (unknown, entry)
parse_keyword hsearch (some ([], rest)) entry = (unknown, entry)
parse_keyword hsearch (some (c ∷ cs, rest)) entry =
    with_value (looked_up hsearch (keyword_name (c ∷ cs)) entry)
      (retrieve_configuration_entry_name (skip_white_space rest))

unfoldable pub parse_line : (Text → Option (TokenType × ℕ)) → Text → ConfigEntry → ℕ × ConfigEntry
unfolding parse_keyword split_equals
parse_line hsearch [] entry = (blankline, entry)
parse_line hsearch (c ∷ cs) entry =
    if c == 35 || c == 59
    then (comment, entry)
    else parse_keyword hsearch (split_equals (c ∷ cs)) entry

-- `hsearch` looks a name up in the table of keywords. The result is the token returned and the entry.
unfoldable pub parse_entry : (Text → Option (TokenType × ℕ)) → Text → ConfigEntry → ℕ × ConfigEntry
unfolding parse_line
parse_entry hsearch buffer entry =
    parse_line hsearch
      (skip_white_space (remove_carriage_return_from_string (remove_feedline_from_string buffer)))
      entry
