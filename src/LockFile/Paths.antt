-- ===== src/LockFile/Paths.antt =====
-- The names of lock files: templates with `%s`, as sprintf reads them, and the base name of a device.
use serial_ip.Base.{
  ℕ, Bool, true, false, Option, none, some, [], ◌∷◌, ◌++◌, ltb, ◌==◌, if◌then◌else◌, ◌>>=◌, length,
}
use serial_ip.Base.Text.{Text, codes}
use serial_ip.LockFile.Files.{System}

abbrev pub percent : ℕ
percent = 37

abbrev pub letter_s : ℕ
letter_s = 115

-- The state of sprintf behind a character: in plain text, or behind a `%`.
-- `none`: a directive other than `%s` and `%%`, or a second `%s`, for which there is no argument.
unfoldable pub sprintf : Bool → Text → Option Text → Option Text
sprintf false [] arg = some []
sprintf true [] arg = none
sprintf false (c ∷ cs) arg =
    let rest = sprintf false cs arg in
    let directive = sprintf true cs arg in
    if c == percent then directive else (rest >>= λ t. some (c ∷ t))
sprintf true (c ∷ cs) none =
    let rest = sprintf false cs none in if c == percent then (rest >>= λ t. some (c ∷ t)) else none
sprintf true (c ∷ cs) (some name) =
    let rest = sprintf false cs (some name) in
    let used = sprintf false cs none in
    if c == percent
    then (rest >>= λ t. some (c ∷ t))
    else if c == letter_s
    then (used >>= λ t. some (name ++ t))
    else none

-- `conf.lockdir` and `conf.locktemplate`
pub record LockConfig : Type 0 where
  pub lockdir : Option Text
  pub locktemplate : Option Text

abbrev pub or_default : Option Text → Text → Text
or_default none d = d
or_default (some t) d = t

-- The size of the arrays that names are built in, by limits.h.
abbrev pub path_max : ℕ
path_max = 4096

-- A string that is built in an array of `path_max` bytes; `none` is a write past its end.
abbrev pub in_array : Text → Option Text
in_array t = if ltb (length t) path_max then some t else none

unfoldable pub get_uucp_template_path : LockConfig → Option Text
get_uucp_template_path conf = in_array (
    or_default conf.lockdir (codes "/var/lock")
    ++ codes "/"
    ++ or_default conf.locktemplate (codes "LCK..%s"))

abbrev slash : ℕ
slash = 47

-- What stands behind the last '/', by strrchr.
unfoldable pub behind_slash : Text → Option Text
behind_slash [] = none
behind_slash (c ∷ cs) = elim (behind_slash cs) [
  | some t ↦ some t
  | none ↦ if c == slash then some cs else none
]

unfoldable pub lock_name : Option Text → Text
unfolding behind_slash
lock_name none = codes "null"
lock_name (some device) = or_default (behind_slash device) device

-- Each path of the code that prints the name prints it by the template.
unfoldable pub get_uucp_lock_device_file : LockConfig → Option Text → Option Text
unfolding get_uucp_template_path lock_name sprintf
get_uucp_lock_device_file conf device = get_uucp_template_path conf >>= λ template.
    sprintf false template (some (lock_name device)) >>= λ t. in_array t

-- The number is put behind the whole name, wherever the template has its `%s`.
unfoldable pub uucp_tmp_filename : System → LockConfig → ℕ → Option Text
unfolding get_uucp_template_path sprintf
uucp_tmp_filename os conf pid = get_uucp_template_path conf >>= λ template.
    sprintf false template (some (codes "tmp.")) >>= λ t. in_array (t ++ os.decimal pid)
