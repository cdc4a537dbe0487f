-- ===== src/Configuration/Sane/Defaults.antt =====
-- A configuration that is accepted has all its settings in range, and is left as it is.
use serial_ip.Base.{
  ℕ, suc, ◌<◌, Bool, true, false, ◌&&◌, Option, none, some, ◌≡◌, ◌⊎◌, refl, ap, ◌∙◌, subst, arith,
  inl, inr, if◌then◌else◌, Bool-cases,
}
use serial_ip.Base.Integer.{ℤ, pos, negsuc, is_negative, is_nonpositive}
use serial_ip.Base.Text.{Text, codes, same_text, eq_of_same_text}
use serial_ip.Configuration.Content.{Config}
use serial_ip.Configuration.Value.{Library, Stored}
use serial_ip.Configuration.Sane.{
  Host, lookup_user, lookup_group, is_directory, or_copy, if_positive, if_not_negative, raw_gateway,
  passes_server_type, with_defaults, is_known, is_usable, sane_config,
}

if_positive-positive : (v : ℤ) (d : ℕ) → is_nonpositive (if_positive v (suc d)) ≡ false
if_positive-positive v d = ground arith

if_positive-same : (v : ℤ) (d : ℕ) → is_nonpositive v ≡ false → if_positive v d ≡ v
if_positive-same v d e = rw e

if_not_negative-natural : (v : ℤ) (d : ℕ) → is_negative (if_not_negative v d) ≡ false
if_not_negative-natural (pos n) d = refl
if_not_negative-natural (negsuc n) d = refl

if_not_negative-same : (v : ℤ) (d : ℕ) → is_negative v ≡ false → if_not_negative v d ≡ v
if_not_negative-same v d e = rw e

passes_server_type-or_copy :
    (lib : Library) (t : Option Stored)
    → passes_server_type t ≡ true
    → passes_server_type (or_copy lib 0 t raw_gateway) ≡ true
passes_server_type-or_copy lib (some s) e = e
passes_server_type-or_copy lib none e = elim (Bool-cases (lib.copies_default 0)) [
  | inl m ↦ rw m refl
  | inr m ↦ rw m refl
]

-- Once a default was copied no other allocation matters.
or_copy-again :
    (lib again : Library) (k : ℕ) (t : Option Stored) (d : Text)
    → lib.copies_default k ≡ true
    → or_copy again k (or_copy lib k t d) d ≡ or_copy lib k t d
or_copy-again lib again k (some s) d m = refl
or_copy-again lib again k none d m = rw m refl

-- One of the three server types; or none, when its default cannot be copied.
abbrev pub HasServerType : Library → Option Stored → Type 0
HasServerType lib none = lib.copies_default 0 ≡ false
HasServerType lib (some s) =
    (s.text ≡ codes "raw TCP gateway")
    ⊎ (s.text ≡ codes "concurrent")
    ⊎ (s.text ≡ codes "iterative")

or_copy-HasServerType :
    (lib : Library) (t : Option Stored)
    → passes_server_type t ≡ true
    → HasServerType lib (or_copy lib 0 t raw_gateway)
or_copy-HasServerType lib none e = elim (Bool-cases (lib.copies_default 0)) [
  | inl m ↦ rw m (inl refl)
  | inr m ↦ rw m m
]
or_copy-HasServerType lib (some s) e = elim (Bool-cases (same_text s.text raw_gateway)) [
  | inl m ↦ inl (eq_of_same_text s.text raw_gateway m)
  | inr m ↦ elim (Bool-cases (same_text s.text (codes "concurrent"))) [
    | inl n ↦ inr (inl (eq_of_same_text s.text (codes "concurrent") n))
    | inr n ↦ inr (inr (eq_of_same_text s.text (codes "iterative") (rw (m, n) at e)))
  ]
]

-- A configuration that the server can work with.
pub record IsSane (host : Host) (lib : Library) (conf : Config) : Type 0 where
  pub timeout : is_nonpositive conf.timeout ≡ false
  pub ms_pollinterval : is_nonpositive conf.ms_pollinterval ≡ false
  pub ls_pollinterval : is_nonpositive conf.ls_pollinterval ≡ false
  pub reply_purge_data : is_negative conf.reply_purge_data ≡ false
  pub idletimer : is_negative conf.idletimer ≡ false
  pub send_logout : is_negative conf.send_logout ≡ false
  pub server_type : HasServerType lib conf.server_type
  pub directory : is_directory host conf.directory ≡ 0
  pub tmpdir : is_directory host conf.tmpdir ≡ 0
  pub lockdir : is_directory host conf.lockdir ≡ 0

with_defaults-IsSane :
    (host : Host) (lib : Library) (number_ports : ℕ) (conf : Config)
    → passes_server_type conf.server_type ≡ true
    → is_usable host number_ports (with_defaults lib conf) ≡ true
    → IsSane host lib (with_defaults lib conf) × (0 < number_ports)
unfolding with_defaults
with_defaults-IsSane host lib number_ports conf kind usable = (
  record {
    timeout = if_positive-positive conf.timeout 29;
    ms_pollinterval = if_positive-positive conf.ms_pollinterval 9;
    ls_pollinterval = if_positive-positive conf.ls_pollinterval 29;
    reply_purge_data = if_not_negative-natural conf.reply_purge_data 0;
    idletimer = if_not_negative-natural conf.idletimer 0;
    send_logout = if_not_negative-natural conf.send_logout 0;
    server_type = or_copy-HasServerType lib conf.server_type kind;
    directory = ground arith;
    tmpdir = ground arith;
    lockdir = ground arith;
  },
  ground arith,
)

-- The second time nothing is missing or out of range.
with_defaults-again :
    (lib again : Library) (conf : Config)
    → ((k : ℕ) → lib.copies_default k ≡ true)
    → with_defaults again (with_defaults lib conf) ≡ with_defaults lib conf
unfolding with_defaults
with_defaults-again lib again conf m = λ i. record conf {
  server_type = or_copy-again lib again 0 conf.server_type raw_gateway (m 0) i;
  pidfile = or_copy-again lib again 1 conf.pidfile (codes "/var/run/serial_ip.pid") (m 1) i;
  timeout =
      if_positive-same (if_positive conf.timeout 30) 30 (if_positive-positive conf.timeout 29) i;
  ms_pollinterval =
      if_positive-same (if_positive conf.ms_pollinterval 10) 10
        (if_positive-positive conf.ms_pollinterval 9) i;
  ls_pollinterval =
      if_positive-same (if_positive conf.ls_pollinterval 30) 30
        (if_positive-positive conf.ls_pollinterval 29) i;
  reply_purge_data =
      if_not_negative-same (if_not_negative conf.reply_purge_data 0) 0
        (if_not_negative-natural conf.reply_purge_data 0) i;
  directory = or_copy-again lib again 2 conf.directory (codes ".") (m 2) i;
  tmpdir = or_copy-again lib again 3 conf.tmpdir (codes "/tmp") (m 3) i;
  lockdir = or_copy-again lib again 4 conf.lockdir (codes "/var/lock") (m 4) i;
  locktemplate = or_copy-again lib again 5 conf.locktemplate (codes "LCK..%s") (m 5) i;
  idletimer =
      if_not_negative-same (if_not_negative conf.idletimer 0) 0
        (if_not_negative-natural conf.idletimer 0) i;
  send_logout =
      if_not_negative-same (if_not_negative conf.send_logout 0) 0
        (if_not_negative-natural conf.send_logout 0) i;
}

user_kept : (lib : Library) (conf : Config) → (with_defaults lib conf).user ≡ conf.user
unfolding with_defaults
user_kept lib conf = refl

group_kept : (lib : Library) (conf : Config) → (with_defaults lib conf).group ≡ conf.group
unfolding with_defaults
group_kept lib conf = refl

kind_kept :
    (lib : Library) (conf : Config)
    → passes_server_type conf.server_type ≡ true
    → passes_server_type (with_defaults lib conf).server_type ≡ true
unfolding with_defaults
kind_kept lib conf e = passes_server_type-or_copy lib conf.server_type e

-- What a success says of the tests.
pub record Accepts (host : Host) (lib : Library) (number_ports : ℕ) (conf after : Config)
    : Type 0 where
  user : is_known (lookup_user host) conf.user ≡ true
  group : is_known (lookup_group host) conf.group ≡ true
  kind : passes_server_type conf.server_type ≡ true
  usable : is_usable host number_ports (with_defaults lib conf) ≡ true
  same : with_defaults lib conf ≡ after

one_first : (c d : Config) → ◌≡◌ {A = ℕ × Config} (1, c) (0, d) → ⊥
one_first c d e = cc

zero_first :
    (b : Bool) (c d : Config)
    → ◌≡◌ {A = ℕ × Config} ((if b then 0 else 1), c) (0, d)
    → (b ≡ true) × (c ≡ d)
zero_first true c d e = (refl, cc)
zero_first false c d e = cc

sane_config-Accepts :
    (host : Host) (lib : Library) (number_ports : ℕ) (conf after : Config)
    → sane_config host lib number_ports conf ≡ (0, after)
    → Accepts host lib number_ports conf after
unfolding sane_config
sane_config-Accepts host lib number_ports conf after e =
    elim (Bool-cases (
      is_known (lookup_user host) conf.user
      && is_known (lookup_group host) conf.group
      && passes_server_type conf.server_type)) [
        | inl ok ↦
            let (usable, same) =
              zero_first (is_usable host number_ports (with_defaults lib conf)) _ after
                (rw ok at e) in
            record {
              user = ground arith;
              group = ground arith;
              kind = ground arith;
              usable = usable;
              same = same;
            }
        | inr bad ↦ absurd (one_first conf after (rw bad at e))
      ]

-- A configuration that is accepted is sane, and there is a port.
pub sane_config-IsSane :
    (host : Host) (lib : Library) (number_ports : ℕ) (conf after : Config)
    → sane_config host lib number_ports conf ≡ (0, after)
    → IsSane host lib after × (0 < number_ports)
unfolding sane_config
sane_config-IsSane host lib number_ports conf after e =
    let a = sane_config-Accepts host lib number_ports conf after e in
    subst (λ c. IsSane host lib c × (0 < number_ports)) a.same
      (with_defaults-IsSane host lib number_ports conf a.kind a.usable)

-- A configuration that `sane_config` accepts, all allocations having succeeded, is accepted again
-- and left as it is, whatever allocations succeed then.
sane_config-again :
    (host : Host) (lib again : Library) (number_ports : ℕ) (conf after : Config)
    → ((k : ℕ) → lib.copies_default k ≡ true)
    → sane_config host lib number_ports conf ≡ (0, after)
    → sane_config host again number_ports after ≡ (0, after)
unfolding sane_config
sane_config-again host lib again number_ports conf after m e =
    let a = sane_config-Accepts host lib number_ports conf after e in
    subst (λ c. sane_config host again number_ports c ≡ (0, c)) a.same
      (rw (user_kept lib conf, group_kept lib conf, a.user, a.group, kind_kept lib conf a.kind)
        (ap (λ c. ((if is_usable host number_ports c then 0 else 1), c))
            (with_defaults-again lib again conf m)
          ∙ rw a.usable refl))
