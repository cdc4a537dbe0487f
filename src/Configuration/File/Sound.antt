-- ===== src/Configuration/File/Sound.antt =====
-- The cases of the switch keep ports that can be set up.
use serial_ip.Base.{
  ℕ, ◌≤◌, Bool, true, ◌⊎◌, inl, inr, Option, none, some, List, [], ◌∷◌, ◌++◌, ◌≡◌, ◌≢◌, refl, subst,
  arith, ◌==◌, ◌||◌, leb, length, if◌then◌else◌, ◌>>=◌, Bool-cases, Option-cases,
}
use serial_ip.Base.Integer.{ℤ}
use serial_ip.Base.Switch.{switch}
use serial_ip.Base.Text.{Text}
use serial_ip.Configuration.{TokenType}
use serial_ip.Configuration.Value.{Library, Stored, save_string, save_int, save_long}
use serial_ip.Configuration.Content.{Port, Config, Reading, Action, serial_device, set_device}
use serial_ip.Configuration.Actions.{
  conf_string, conf_int, port_int, port_speed, port_description, port_device, port_word, is_word,
  is_databits, is_stopbits, copied, with_defaults, push, overwrite,
}
use serial_ip.Serial.Pool.{no_path, max_sports}
use serial_ip.Serial.Speed.{valid_serial_speed}

-- A port whose settings are among those that the program knows.
pub record IsPort (p : Port) : Type 0 where
  pub known_speed : valid_serial_speed p.speed ≢ 0
  pub known_databits : is_databits p.databits ≡ true
  pub known_stopbits : is_stopbits p.stopbits ≡ true
  pub known_parity : p.parity ≤ 2
  pub known_flow : (p.flowcontrol ≡ 4) ⊎ (p.flowcontrol ≡ 8) ⊎ (p.flowcontrol ≡ 16)

abbrev pub ArePorts : List Port → Type 0
ArePorts [] = Unit {0}
ArePorts (p ∷ ps) = IsPort p × ArePorts ps

pub record IsGood (s : Reading) : Type 0 where
  pub defaults : IsPort s.sabre_defaults
  pub before : ArePorts s.earlier
  pub here : (p : Port) → s.last ≡ some p → IsPort p

-- One of the numbers of the words.
abbrev pub HasNumber : ℕ → List (Text × ℕ) → Type 0
HasNumber n [] = ⊥
HasNumber n ((word, k) ∷ words) = (n ≡ k) ⊎ HasNumber n words

-- An action that ends without an error keeps the ports good.
abbrev pub IsSound : Action → Type 0
IsSound f =
    (type : TokenType) (t : Text) (s s' : Reading)
    → IsGood s
    → f type t s ≡ some (0, s')
    → IsGood s'

IsGood-conf : (s : Reading) (c : Config) → IsGood s → IsGood (record s { conf = c })
IsGood-conf s c g = record { defaults = g.defaults; before = g.before; here = g.here }

pub none_is_not_some : {p : Port} → none ≢ some p
none_is_not_some e = cc

same_port : {p q : Port} → some p ≡ some q → p ≡ q
same_port e = cc

pub outcome :
    {e e' : ℕ} {s s' : Reading}
    → ◌≡◌ {A = Option (ℕ × Reading)} (some (e, s)) (some (e', s'))
    → (e ≡ e') × (s ≡ s')
outcome x = (cc, cc)

serial_device-IsPort : (s : Reading) → IsGood s → IsPort (serial_device s)
serial_device-IsPort s g = elim (Option-cases s.last) [
  | inl e ↦ rw e g.defaults
  | inr (p, e) ↦ rw e (g.here p e)
]

set_device-IsGood : (s : Reading) (p : Port) → IsGood s → IsPort p → IsGood (set_device s p)
set_device-IsGood s p g h = elim (Option-cases s.last) [
  | inl e ↦
      rw e (record { defaults = h; before = g.before; here = λ q x. absurd (none_is_not_some x) })
  | inr (old, e) ↦ rw e (record {
    defaults = g.defaults;
    before = g.before;
    here = λ q x. subst IsPort (same_port x) h;
  })
]

-- What a step that may fail was, if its outcome is known.
>>=-some :
    {A B : Type 0} (m : Option A) (f : A → Option B) (b : B)
    → (m >>= f) ≡ some b
    → (a : A) × (m ≡ some a) × (f a ≡ some b)
>>=-some none f b e = cc
>>=-some (some a) f b e = (a, refl, e)

passed : (e : ℕ) (b : Bool) → (if e == 0 then if b then 0 else 1 else e) ≡ 0 → b ≡ true
passed e b h = ground arith

passed_speed : (e v : ℕ) → (if e == 0 then if v == 0 then 1 else 0 else e) ≡ 0 → v ≢ 0
passed_speed e v h = ground arith

pub ArePorts-append : (ps : List Port) (p : Port) → ArePorts ps → IsPort p → ArePorts (ps ++ p ∷ [])
ArePorts-append [] p h g = (g, tt)
ArePorts-append (q ∷ ps) p h g = (h.0, ArePorts-append ps p h.1 g)

pub one_is_not_zero : ◌≢◌ {A = ℕ} 1 0
one_is_not_zero e = omega arith

module _ (lib : Library) where
  pub conf_string-IsSound :
      (get : Config → Option Stored) (set : Config → Option Stored → Config)
      → IsSound (conf_string lib get set)
  unfolding conf_string
  conf_string-IsSound get set type t s s' g e =
      let (r, a, b) = >>=-some (save_string lib type t (get s.conf)) _ (0, s') e in
      subst IsGood (outcome b).1 (IsGood-conf s (set s.conf r.1) g)

  pub port_int-IsSound :
      (set : Port → ℤ → Port) (test : ℤ → Bool)
      → ((p : Port) (v : ℤ) → IsPort p → test v ≡ true → IsPort (set p v))
      → IsSound (port_int lib set test)
  unfolding port_int
  port_int-IsSound set test keeps type t s s' g e =
      let (r, a, b) = >>=-some (save_int lib type t) _ (0, s') e in
      let (tested, same) = outcome b in
      subst IsGood same (
        set_device-IsGood s (set (serial_device s) r.1) g
          (keeps (serial_device s) r.1 (serial_device-IsPort s g) (passed r.0 (test r.1) tested)))

  pub conf_int-IsSound : (set : Config → ℤ → Config) → IsSound (conf_int lib set)
  unfolding conf_int
  conf_int-IsSound set type t s s' g e =
      let (r, a, b) = >>=-some (save_int lib type t) _ (0, s') e in
      subst IsGood (outcome b).1 (IsGood-conf s (set s.conf r.1) g)

  pub port_speed-IsSound : IsSound (port_speed lib)
  unfolding port_speed
  port_speed-IsSound type t s s' g e =
      let (r, a, b) = >>=-some (save_long lib type t) _ (0, s') e in
      let (tested, same) = outcome b in
      let p = serial_device-IsPort s g in
      subst IsGood same (
        set_device-IsGood s (record (serial_device s) { speed = r.1 }) g
          (record {
            known_speed = passed_speed r.0 (valid_serial_speed r.1) tested;
            known_databits = p.known_databits;
            known_stopbits = p.known_stopbits;
            known_parity = p.known_parity;
            known_flow = p.known_flow;
          }))

  pub port_description-IsSound : IsSound (port_description lib)
  unfolding port_description
  port_description-IsSound type t s s' g e =
      let (r, a, b) = >>=-some (save_string lib type t none) _ (0, s') e in
      let p = serial_device-IsPort s g in
      subst IsGood (outcome b).1 (
        set_device-IsGood s (record (serial_device s) { description = r.1 }) g
          (record {
            known_speed = p.known_speed;
            known_databits = p.known_databits;
            known_stopbits = p.known_stopbits;
            known_parity = p.known_parity;
            known_flow = p.known_flow;
          }))

  -- A port with the defaults has their settings.
  with_defaults-IsPort :
      (d : Port) (device : Option Text) (q : Port)
      → IsPort d
      → with_defaults lib d device ≡ some q
      → IsPort q
  with_defaults-IsPort d device q h e =
      let (description, a, b) = >>=-some (copied lib d.description) _ q e in
      subst IsPort (same_port b) (record {
        known_speed = h.known_speed;
        known_databits = h.known_databits;
        known_stopbits = h.known_stopbits;
        known_parity = h.known_parity;
        known_flow = h.known_flow;
      })

  push-ArePorts : (s : Reading) → IsGood s → ArePorts (push lib s)
  push-ArePorts s g = elim (Option-cases s.last) [
    | inl e ↦ rw e tt
    | inr (p, e) ↦ rw e (ArePorts-append s.earlier p g.before (g.here p e))
  ]

  -- The port that a line adds or overwrites.
  last-IsGood :
      (s : Reading) (ps : List Port) (p : Port)
      → IsGood s
      → ArePorts ps
      → IsPort p
      → IsGood (record s { earlier = ps; last = some p })
  last-IsGood s ps p g hs h = record {
    defaults = g.defaults;
    before = hs;
    here = λ q e. subst IsPort (same_port e) h;
  }

  overwrite-IsGood :
      (s s' : Reading) (last : Option Port)
      → IsGood s
      → overwrite lib s last ≡ some (0, s')
      → IsGood s'
  overwrite-IsGood s s' none g e = cc
  overwrite-IsGood s s' (some p) g e =
      let (q, a, b) = >>=-some (with_defaults lib s.sabre_defaults p.device) _ (0, s') e in
      subst IsGood (outcome b).1 (
        last-IsGood s s.earlier q g g.before
          (with_defaults-IsPort s.sabre_defaults p.device q g.defaults a))

  pub port_device-IsSound : IsSound (port_device lib)
  unfolding port_device
  port_device-IsSound type t s s' g e =
      elim (Bool-cases (no_path (some t) || leb max_sports (length (push lib s)))) [
        | inl bad ↦ absurd (one_is_not_zero (outcome (rw bad at e)).0)
        | inr fine ↦ elim (Bool-cases (lib.allocates [])) [
          | inl room ↦ elim (Bool-cases (lib.allocates t)) [
            | inl copied ↦
                let (q, a, b) =
                  >>=-some (with_defaults lib s.sabre_defaults (some t)) _ (0, s')
                    (rw (fine, room, copied) at e) in
                subst IsGood (outcome b).1 (
                  last-IsGood s (push lib s) q g (push-ArePorts s g)
                    (with_defaults-IsPort s.sabre_defaults (some t) q g.defaults a))
            | inr short ↦ absurd (one_is_not_zero (outcome (rw (fine, room, short) at e)).0)
          ]
          | inr short ↦ overwrite-IsGood s s' s.last g (rw (fine, short) at e)
        ]
      ]

pub port_word-IsSound :
    (set : Port → ℕ → Port) (words : List (Text × ℕ))
    → ((p : Port) (n : ℕ) → IsPort p → HasNumber n words → IsPort (set p n))
    → IsSound (port_word set words)
unfolding port_word
port_word-IsSound set [] keeps type t s s' g e = absurd (one_is_not_zero (outcome e).0)
port_word-IsSound set ((word, n) ∷ words) keeps type t s s' g e =
    elim (Bool-cases (is_word word t)) [
      | inl hit ↦ subst IsGood (outcome (rw hit at e)).1 (
          set_device-IsGood s (set (serial_device s) n) g
            (keeps (serial_device s) n (serial_device-IsPort s g) (inl refl)))
      | inr miss ↦
          port_word-IsSound set words (λ p k h m. keeps p k h (inr m)) type t s s' g (rw miss at e)
    ]

-- All actions of a table are sound.
abbrev pub AllSound : List (ℕ × Action) → Type 0
AllSound [] = Unit {0}
AllSound ((c, f) ∷ cases) = IsSound f × AllSound cases

pub switch-IsSound :
    (k : ℕ) (cases : List (ℕ × Action)) (d : Action)
    → AllSound cases
    → IsSound d
    → IsSound (switch k cases d)
switch-IsSound k [] d h sound = sound
switch-IsSound k ((c, f) ∷ cases) d h sound = elim (Bool-cases (k == c)) [
  | inl here ↦ rw here h.0
  | inr later ↦ rw later (switch-IsSound k cases d h.1 sound)
]
