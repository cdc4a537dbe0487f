-- ===== src/LockFile/Distinct.antt =====
-- Devices with different base names have different lock files.
use serial_ip.Base.{
  ℕ, Option, none, some, Bool, true, false, [], ◌∷◌, ◌++◌, ◌≡◌, refl, sym, ◌∙◌, inl, inr, ◌==◌,
  if◌then◌else◌, ◌>>=◌, ltb, length, Bool-cases, arith,
}
use mathlib.Core.List.{append_cancel_right}
use serial_ip.Base.Text.{Text}
use serial_ip.Telnet.Scan.{Absent}
use serial_ip.LockFile.Paths.{
  behind_slash, sprintf, LockConfig, in_array, path_max, percent, letter_s, get_uucp_template_path,
  lock_name, get_uucp_lock_device_file,
}

-- The template has a `%s`.
unfoldable pub has_name : Bool → Text → Bool
has_name state [] = false
has_name false (c ∷ cs) =
    let rest = has_name false cs in
    let directive = has_name true cs in if c == percent then directive else rest
has_name true (c ∷ cs) =
    let rest = has_name false cs in if c == percent then rest else c == letter_s

cons_both :
    (c : ℕ) (m n : Option Text) (t : Text)
    → (m >>= λ r. some (c ∷ r)) ≡ some t
    → (n >>= λ r. some (c ∷ r)) ≡ some t
    → (r : Text) × (m ≡ some r) × (n ≡ some r)
cons_both c none n t e f = cc
cons_both c (some r) none t e f = cc
cons_both c (some r) (some r') t e f = (r, refl, cc)

append_both :
    (a b : Text) (m : Option Text) (t : Text)
    → (m >>= λ r. some (a ++ r)) ≡ some t
    → (m >>= λ r. some (b ++ r)) ≡ some t
    → a ≡ b
append_both a b none t e f = cc
append_both a b (some r) t e f = append_cancel_right a b r cc

sprintf-injective :
    (state : Bool) (cs a b t : Text)
    → has_name state cs ≡ true
    → sprintf state cs (some a) ≡ some t
    → sprintf state cs (some b) ≡ some t
    → a ≡ b
unfolding sprintf has_name
sprintf-injective state [] a b t h e f = cc
sprintf-injective false (c ∷ cs) a b t h e f = elim (Bool-cases (c == percent)) [
  | inl p ↦ sprintf-injective true cs a b t (rw p at h) (rw p at e) (rw p at f)
  | inr p ↦
      let (r, e', f') = cons_both c _ _ t (rw p at e) (rw p at f) in
      sprintf-injective false cs a b r (rw p at h) e' f'
]
sprintf-injective true (c ∷ cs) a b t h e f = elim (Bool-cases (c == percent)) [
  | inl p ↦
      let (r, e', f') = cons_both c _ _ t (rw p at e) (rw p at f) in
      sprintf-injective false cs a b r (rw p at h) e' f'
  | inr p ↦
      let named : (c == letter_s) ≡ true = rw p at h in
      append_both a b _ t (rw (p, named) at e) (rw (p, named) at f)
]

>>=-some :
    (m : Option Text) (f : Text → Option Text) (t : Text)
    → (m >>= f) ≡ some t
    → (u : Text) × (m ≡ some u) × (f u ≡ some t)
>>=-some none f t e = cc
>>=-some (some u) f t e = (u, refl, e)

in_array-some : (t u : Text) → in_array t ≡ some u → t ≡ u
in_array-some t u e = elim (Bool-cases (ltb (length t) path_max)) [
  | inl p ↦ let same : some t ≡ some u = rw p at e in cc
  | inr p ↦ let same : ◌≡◌ {A = Option Text} none (some u) = rw p at e in cc
]

base_names-injective :
    (conf : LockConfig) (a b : Option Text) (template t : Text)
    → get_uucp_template_path conf ≡ some template
    → has_name false template ≡ true
    → get_uucp_lock_device_file conf a ≡ some t
    → get_uucp_lock_device_file conf b ≡ some t
    → lock_name a ≡ lock_name b
unfolding get_uucp_lock_device_file
base_names-injective conf a b template t path h e f =
    let (u, ua, ea) =
      >>=-some (sprintf false template (some (lock_name a))) in_array t (rw path at e) in
    let (v, vb, eb) =
      >>=-some (sprintf false template (some (lock_name b))) in_array t (rw path at f) in
    let same = in_array-some u t ea ∙ sym (in_array-some v t eb) in
    sprintf-injective false template (lock_name a) (lock_name b) v h (rw same at ua) vb

-- Without a '/' nothing stands behind one.
behind_slash-none : (name : Text) → Absent 47 name → behind_slash name ≡ none
unfolding behind_slash
behind_slash-none [] a = refl
behind_slash-none (c ∷ cs) a =
    let other : c == 47 ≡ false = ground arith in rw (behind_slash-none cs a.1, other) refl

behind_slash-path : (dir name : Text) → Absent 47 name → behind_slash (dir ++ 47 ∷ name) ≡ some name
unfolding behind_slash
behind_slash-path [] name a = rw (behind_slash-none name a) refl
behind_slash-path (c ∷ cs) name a = rw (behind_slash-path cs name a) refl

lock_name-path : (dir name : Text) → Absent 47 name → lock_name (some (dir ++ 47 ∷ name)) ≡ name
unfolding lock_name
lock_name-path dir name a = rw (behind_slash-path dir name a) refl

-- With a template that has a `%s`, two devices, each given with a directory, a slash and a name
-- without a slash, that get the same lock file have the same name behind their last slash.
pub get_uucp_lock_device_file-injective :
    (conf : LockConfig) (dir_a a dir_b b template t : Text)
    → Absent 47 a
    → Absent 47 b
    → get_uucp_template_path conf ≡ some template
    → has_name false template ≡ true
    → get_uucp_lock_device_file conf (some (dir_a ++ 47 ∷ a)) ≡ some t
    → get_uucp_lock_device_file conf (some (dir_b ++ 47 ∷ b)) ≡ some t
    → a ≡ b
get_uucp_lock_device_file-injective conf dir_a a dir_b b template t no_a no_b path h e f =
    sym (lock_name-path dir_a a no_a)
    ∙ base_names-injective conf (some (dir_a ++ 47 ∷ a)) (some (dir_b ++ 47 ∷ b)) template t path h
        e f
    ∙ lock_name-path dir_b b no_b
