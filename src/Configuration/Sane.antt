-- ===== src/Configuration/Sane.antt =====
-- `sane_config` of configuration.c: what a configuration is completed to, and when it is refused.
pub mod Defaults
use serial_ip.Base.{
  ℕ, zero, suc, ◌≤◌, ◌<◌, Bool, true, false, ◌&&◌, ◌||◌, Option, none, some, List, [], ◌∷◌, ◌≡◌,
  ◌⊎◌, refl, ap, ◌∙◌, subst, arith, inl, inr, ltb, leb, ◌==◌, if◌then◌else◌, length, Bool-cases,
}
use serial_ip.Base.Integer.{ℤ, pos, negsuc, is_negative, is_nonpositive}
use serial_ip.Base.Text.{Text, codes, same_text}
use serial_ip.Configuration.Content.{Config}
use serial_ip.Configuration.Value.{Library, Stored}

-- The users, groups and directories of the system.
pub record Host : Type 0 where
  pub getpwnam : Text → Option ℕ
  pub getgrnam : Text → Option ℕ
  pub is_dir : Text → Bool

unfoldable pub lookup_user : Host → Text → ℕ × Option ℕ
lookup_user host user = elim (host.getpwnam user) [ none ↦ (1, none) | some uid ↦ (0, some uid) ]

unfoldable pub lookup_group : Host → Text → ℕ × Option ℕ
lookup_group host group = elim (host.getgrnam group) [ none ↦ (1, none) | some gid ↦ (0, some gid) ]

unfoldable pub is_directory : Host → Option Stored → ℕ
is_directory host none = 1
is_directory host (some s) = if host.is_dir s.text then 0 else 1

-- `strdup` of a default for a string that is not set, the one numbered `k` in a call of `sane_config`.
abbrev pub or_copy : Library → ℕ → Option Stored → Text → Option Stored
or_copy lib k (some s) d = some s
or_copy lib k none d =
    if lib.copies_default k then some (record { capacity = suc (length d); text = d }) else none

abbrev pub if_positive : ℤ → ℕ → ℤ
if_positive v d = if is_nonpositive v then pos d else v

abbrev pub if_not_negative : ℤ → ℕ → ℤ
if_not_negative v d = if is_negative v then pos d else v

abbrev pub raw_gateway : Text
raw_gateway = codes "raw TCP gateway"

-- The check of the server type: one that is set has to be one of the three.
abbrev pub passes_server_type : Option Stored → Bool
passes_server_type none = true
passes_server_type (some s) =
    same_text s.text raw_gateway
    || same_text s.text (codes "concurrent")
    || same_text s.text (codes "iterative")

-- The settings that are missing or out of range take their defaults.
unfoldable pub with_defaults : Library → Config → Config
with_defaults lib conf = record conf {
  server_type = or_copy lib 0 conf.server_type raw_gateway;
  pidfile = or_copy lib 1 conf.pidfile (codes "/var/run/serial_ip.pid");
  timeout = if_positive conf.timeout 30;
  ms_pollinterval = if_positive conf.ms_pollinterval 10;
  ls_pollinterval = if_positive conf.ls_pollinterval 30;
  reply_purge_data = if_not_negative conf.reply_purge_data 0;
  directory = or_copy lib 2 conf.directory (codes ".");
  tmpdir = or_copy lib 3 conf.tmpdir (codes "/tmp");
  lockdir = or_copy lib 4 conf.lockdir (codes "/var/lock");
  locktemplate = or_copy lib 5 conf.locktemplate (codes "LCK..%s");
  idletimer = if_not_negative conf.idletimer 0;
  send_logout = if_not_negative conf.send_logout 0;
}

-- `lookup_user` or `lookup_group` of a name that may be missing: whether it succeeds
abbrev pub is_known : (Text → ℕ × Option ℕ) → Option Stored → Bool
is_known lookup none = false
is_known lookup (some s) = (lookup s.text).0 == 0

-- The directories and the ports, the last tests.
abbrev pub is_usable : Host → ℕ → Config → Bool
is_usable host number_ports conf =
    is_directory host conf.directory == 0
    && is_directory host conf.tmpdir == 0
    && is_directory host conf.lockdir == 0
    && ltb 0 number_ports

-- The error and the configuration; the ids of the user and group are left out.
unfoldable pub sane_config : Host → Library → ℕ → Config → ℕ × Config
unfolding lookup_user lookup_group with_defaults is_directory
sane_config host lib number_ports conf =
    if is_known (lookup_user host) conf.user
      && is_known (lookup_group host) conf.group
      && passes_server_type conf.server_type
    then (
      (if is_usable host number_ports (with_defaults lib conf) then 0 else 1),
      with_defaults lib conf,
    )
    else (1, conf)
