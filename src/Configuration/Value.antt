-- ===== src/Configuration/Value.antt =====
-- Saving the value of an entry: `save_value` and `boolean_string_handle` of utilities.c.
use serial_ip.Base.{
  ℕ, suc, Bool, false, ◌||◌, Option, none, some, List, [], ◌∷◌, ltb, if◌then◌else◌, ◌>>=◌, length,
}
use serial_ip.Base.Integer.{ℤ, pos, negsuc}
use serial_ip.Base.Text.{Text, codes, same_text}
use serial_ip.Configuration.{
  TokenType, longvalue, boolean, printfstring, string, value, string_to_lower,
}
use serial_ip.EscapeSequence.{escape_sequence_copy}

-- What the C library does: the conversions of numbers, and whether there is memory for a string.
pub record Library : Type 0 where
  pub atoi : Text → ℤ
  pub atol : Text → ℕ
  pub allocates : Text → Bool
  pub copies_default : ℕ → Bool  -- the allocations of `sane_config`, numbered in its order

-- A string in a block of memory of its own.
pub record Stored : Type 0 where
  pub capacity : ℕ
  pub text : Text

abbrev is_one_of : Text → List Text → Bool
is_one_of t [] = false
is_one_of t (word ∷ words) = same_text t word || is_one_of t words

abbrev pub no_words : List Text
no_words = codes "0" ∷ codes "off" ∷ codes "false" ∷ codes "no" ∷ []

abbrev pub yes_words : List Text
yes_words = codes "1" ∷ codes "on" ∷ codes "true" ∷ codes "yes" ∷ []

-- -1 stands for any other word, and for a copy that failed.
unfoldable pub boolean_string_handle : Library → Text → ℤ
boolean_string_handle lib t =
    if lib.allocates t
    then if is_one_of (string_to_lower t) no_words
      then pos 0
      else if is_one_of (string_to_lower t) yes_words
      then pos 1
      else negsuc 0
    else negsuc 0

-- A string written to the block of the target; `none` is a write past its end.
abbrev pub written_to : Text → Stored → Option (ℕ × Option Stored)
written_to t s = if ltb (length t) s.capacity then some (0, some (record s { text = t })) else none

-- What is written for a value of type STRING or PRINTFSTRING.
abbrev pub spelled : TokenType → Text → Option Text
spelled printfstring t = escape_sequence_copy t
spelled _ t = some t

-- `save_value` for a string: the error and the target. A target that is set keeps its block.
unfoldable pub save_string : Library → TokenType → Text → Option Stored → Option (ℕ × Option Stored)
save_string lib type t (some s) = spelled type t >>= λ u. written_to u s
save_string lib type t none =
    if lib.allocates t
    then (spelled type t >>= λ u. written_to u (record { capacity = suc (length t); text = [] }))
    else some (1, none)

-- `save_value` for an `int`; another type would not fit the target.
unfoldable pub save_int : Library → TokenType → Text → Option (ℕ × ℤ)
unfolding boolean_string_handle
save_int lib value t = some (0, lib.atoi t)
save_int lib boolean t = elim (boolean_string_handle lib t) [
  | pos n ↦ some (0, pos n)
  | negsuc n ↦ some (1, negsuc n)
]
save_int lib _ t = none

-- `save_value` for an `unsigned long`
unfoldable pub save_long : Library → TokenType → Text → Option (ℕ × ℕ)
save_long lib longvalue t = some (0, lib.atol t)
save_long lib _ t = none

unfoldable pub token_type_to_str : TokenType → Text
token_type_to_str longvalue = codes "number"
token_type_to_str boolean = codes "boolean"
token_type_to_str printfstring = codes "printf string"
token_type_to_str string = codes "string"
token_type_to_str value = codes "number"
