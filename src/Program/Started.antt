-- ===== src/Program/Started.antt =====
-- What holds when the program has started.
use serial_ip.Base.{
  ℕ, zero, suc, ◌+◌, ◌<◌, Bool, true, false, Option, none, some, List, [], ◌∷◌, ◌≡◌, refl, sym, ap,
  ◌∙◌, arith, inl, inr, ◌==◌, ◌>>=◌, length, subst, Option-cases, if◌then◌else◌,
}
use serial_ip.Base.Integer.{ℤ, pos, negsuc, is_nonpositive, pos_part}
use serial_ip.Base.Text.{Text}
use serial_ip.Configuration.Content.{Config, Port, Reading}
use serial_ip.Configuration.File.{read_configuration_file}
use serial_ip.Configuration.File.Accepted.{read_configuration_file-IsGood}
use serial_ip.Configuration.File.Sound.{ArePorts, ArePorts-append, IsGood}
use serial_ip.Configuration.Sane.{Host, sane_config}
use serial_ip.Configuration.Sane.Defaults.{IsSane, sane_config-IsSane}
use serial_ip.Configuration.Value.{Library}
use serial_ip.Connection.{Settings, tvsecs}
use serial_ip.Program.{
  Letter, Options, take_option, take_options, get_options_from_input, ports, if_sane, after_reading,
  serial_ip_init, default_config, default_options,
}
use serial_ip.Signals.{Fate, runs, ends}

ports-ArePorts : (s : Reading) → IsGood s → ArePorts (ports s)
ports-ArePorts s g = elim (Option-cases s.last) [
  | inl e ↦ rw e g.before
  | inr (p, e) ↦ rw e (ArePorts-append s.earlier p g.before (g.here p e))
]

same_runs :
    {ps qs : List Port} {c d : Config}
    → ◌≡◌ {A = Fate (List Port × Config)} (runs (ps, c)) (runs (qs, d))
    → (ps ≡ qs) × (c ≡ d)
same_runs e = (cc, cc)

inside : {a b : Fate (List Port × Config)} → some a ≡ some b → a ≡ b
inside e = cc

ended : {n : ℕ} {r : List Port × Config} → ◌≡◌ {A = Fate (List Port × Config)} (ends n) (runs r) → ⊥
ended e = cc

module _ (host : Host) (lib : Library) where
  if_sane-runs :
      (ps qs : List Port) (conf conf' : Config) (answer : ℕ × Config)
      → answer ≡ sane_config host lib (length ps) conf
      → if_sane ps answer ≡ runs (qs, conf')
      → (ps ≡ qs) × (sane_config host lib (length ps) conf ≡ (0, conf'))
  if_sane-runs ps qs conf conf' (zero, c) e h =
      let same : (ps ≡ qs) × (c ≡ conf') = same_runs h in (same.0, sym e ∙ ap (λ d. (0, d)) same.1)
  if_sane-runs ps qs conf conf' (suc n, c) e h = absurd (ended h)

  -- When the start succeeds there is at least one port, every port has a speed, a number of data
  -- and stop bits, a parity and a flow control that the program knows, and the configuration is
  -- sane: positive timeout and poll intervals, no negative setting for purges, the idle timer or
  -- the logout, directories that exist, and one of the three server types, or none if its default
  -- could not be copied.
  pub serial_ip_init-IsSane :
      (file : Option (List Text)) (qs : List Port) (conf : Config)
      → serial_ip_init host lib file ≡ some (runs (qs, conf))
      → ArePorts qs × (0 < length qs) × IsSane host lib conf
  unfolding serial_ip_init
  serial_ip_init-IsSane file qs conf e =
      started (read_configuration_file lib file default_config) refl e
    where
      started :
          (answer : Option (ℕ × Reading))
          → read_configuration_file lib file default_config ≡ answer
          → (answer >>= λ r. some (after_reading host lib r)) ≡ some (runs (qs, conf))
          → ArePorts qs × (0 < length qs) × IsSane host lib conf
      started none is h = cc
      started (some (suc n, s)) is h = absurd (ended (inside h))
      started (some (zero, s)) is h =
          let (same, accepted) =
            if_sane-runs (ports s) qs s.conf conf (sane_config host lib (length (ports s)) s.conf)
              refl (inside h) in
          let (sane, many) = sane_config-IsSane host lib (length (ports s)) s.conf conf accepted in
          (
            subst ArePorts same
                (ports-ArePorts s (read_configuration_file-IsGood lib file default_config s is)),
            subst (λ ps. 0 < length ps) same many,
            sane,
          )

-- The letters that the program knows.
abbrev pub is_known : ℕ → Bool
is_known letter =
    if letter == 100
    then true
    else if letter == 110
    then true
    else if letter == 99
    then true
    else if letter == 112
    then true
    else letter == 119

-- The letters of an input that are not known.
abbrev pub unknown_letters : List Letter → ℕ
unknown_letters [] = 0
unknown_letters ((letter, optarg) ∷ letters) =
    (if is_known letter then 0 else 1) + unknown_letters letters

take_option-errors :
    (lib : Library) (l : Letter) (o : Options)
    → (take_option lib l o).error_flag ≡ o.error_flag + (if is_known l.0 then 0 else 1)
unfolding take_option
take_option-errors lib l o = ground arith

take_options-errors :
    (lib : Library) (letters : List Letter) (o : Options)
    → (take_options lib letters o).error_flag ≡ o.error_flag + unknown_letters letters
unfolding take_options
take_options-errors lib [] o = omega arith
take_options-errors lib (l ∷ letters) o =
    take_options-errors lib letters (take_option lib l o)
    ∙ omega (arith, take_option-errors lib l o)

-- The result is the number of letters that are not known.
pub get_options_from_input-unknown_letters :
    (lib : Library) (letters : List Letter)
    → (get_options_from_input lib letters).0 ≡ unknown_letters letters
unfolding get_options_from_input
get_options_from_input-unknown_letters lib letters =
    omega (arith, take_options-errors lib letters default_options)

-- What the loop of a connection takes from a configuration.
abbrev pub settings : Bool → Bool → Config → Settings
settings noquote raw conf = record {
  idletimer = pos_part conf.idletimer;
  ms_pollinterval = pos_part conf.ms_pollinterval;
  ls_pollinterval = pos_part conf.ls_pollinterval;
  send_logout = pos_part conf.send_logout;
  noquote = noquote;
  raw_flag = raw;
}

positive_part : (v : ℤ) → is_nonpositive v ≡ false → 0 < pos_part v
positive_part (pos n) e = ground arith
positive_part (negsuc n) e = cc

-- A sane configuration makes select wait for a second or more.
pub tvsecs-IsSane :
    (host : Host) (lib : Library) (noquote raw : Bool) (conf : Config)
    → IsSane host lib conf
    → 0 < tvsecs (settings noquote raw conf)
unfolding tvsecs
tvsecs-IsSane host lib noquote raw conf h = ground (
  arith,
  positive_part conf.ms_pollinterval h.ms_pollinterval,
  positive_part conf.ls_pollinterval h.ls_pollinterval,
)
