-- ===== src/Signals.antt =====
-- signal_handle.c and debug_handle.c: what a signal does to the globals, in the server and in the
-- process of a connection, and where a line of the debugging log goes.
pub mod Actions
use serial_ip.Base.{
  ℕ, zero, suc, ◌+◌, ◌-◌, ◌/◌, ◌%◌, Bool, true, false, ◌||◌, List, [], ◌∷◌, ltb, leb, ◌==◌,
  if◌then◌else◌,
}
use serial_ip.Base.Switch.{switch}
use serial_ip.Base.Text.{Text, codes}

-- `debug_level`, a negative one left out, and whether `debugfp` is a stream.
pub record Debug : Type 0 where
  pub debug_level : ℕ
  pub has_file : Bool

abbrev pub get_debug_level : Debug → ℕ
get_debug_level d = d.debug_level

-- DBG_LV9
abbrev pub max_level : ℕ
max_level = 9

unfoldable pub set_debug_level : ℕ → Debug → Debug
set_debug_level new_level d =
    if leb new_level max_level then record d { debug_level = new_level } else d

unfoldable pub close_debug : Debug → Debug
close_debug d = record { debug_level = 0; has_file = false }

-- `file` is given, and `opens` tells whether fopen succeeds.
unfoldable pub open_debug : Bool → Bool → ℕ → Debug → Debug
open_debug true true level d = record { debug_level = level; has_file = true }
open_debug true false level d = record d { debug_level = level }
open_debug false opens level d = record { debug_level = level; has_file = false }

pub data Target : Type 0 where
  dropped log_file syslog_err syslog_info syslog_debug : Target

-- DBG_ERR is 0 and DBG_INF is 3.
abbrev pub priority : ℕ → Target
priority level =
    if level == 0 then syslog_err else if leb level 3 then syslog_info else syslog_debug

-- `fails` is what ferror tells behind the write.
unfoldable pub write_to_debuglog : Bool → ℕ → Debug → Target × Debug
unfolding close_debug
write_to_debuglog fails level d =
    if ltb d.debug_level level
    then (dropped, d)
    else if d.has_file
    then (log_file, if fails then close_debug d else d)
    else (priority level, d)

-- The globals that signals change. `gsockfd` tells whether it names a socket.
pub record Globals : Type 0 where
  pub debug : Debug
  pub signo : ℕ
  pub signo_child : ℕ
  pub break_signaled : Bool
  pub linestate : ℕ
  pub gsockfd : Bool

-- A process goes on, or has ended with a status.
pub data Fate {ℓ} (A : Type ℓ) : Type ℓ where
  runs : A → Fate A
  ends : ℕ → Fate A

abbrev pub and_then {ℓ κ} : {A : Type ℓ} {B : Type κ} → Fate A → (A → Fate B) → Fate B
and_then (runs a) f = f a
and_then (ends status) f = ends status

-- The numbers of signals are those of Linux.
abbrev pub sighup : ℕ
sighup = 1

abbrev pub sigint : ℕ
sigint = 2

abbrev pub sigquit : ℕ
sigquit = 3

abbrev pub sigusr1 : ℕ
sigusr1 = 10

abbrev pub sigusr2 : ℕ
sigusr2 = 12

abbrev pub sigpipe : ℕ
sigpipe = 13

abbrev pub sigterm : ℕ
sigterm = 15

abbrev pub sigcld : ℕ
sigcld = 17

unfoldable pub action_sigusr1 : Globals → Globals
unfolding set_debug_level
action_sigusr1 g =
    let level = get_debug_level g.debug in
    if ltb level max_level then record g { debug = set_debug_level (level + 1) g.debug } else g

unfoldable pub action_sigusr2 : Globals → Globals
unfolding set_debug_level
action_sigusr2 g =
    let level = get_debug_level g.debug in
    if ltb 0 level then record g { debug = set_debug_level (level - 1) g.debug } else g

-- `linestate |= CPC_LINESTATE_BREAK_DETECT`, which is 16
abbrev pub break_detect : ℕ → ℕ
break_detect linestate = if linestate / 16 % 2 == 0 then linestate + 16 else linestate

unfoldable pub telnet_sigint : Globals → Globals
telnet_sigint g = record g { break_signaled = true; linestate = break_detect g.linestate }

unfoldable pub child_sighandler : ℕ → Globals → Fate Globals
child_sighandler signal g = ends (128 + signal)

-- the `switch`
unfoldable pub child_action : ℕ → Globals → Fate Globals
unfolding telnet_sigint action_sigusr1 action_sigusr2 child_sighandler
child_action signal g =
    if signal == 0
    then runs g
    else if signal == sigint
    then runs (telnet_sigint g)
    else if signal == sigusr1
    then runs (action_sigusr1 g)
    else if signal == sigusr2
    then runs (action_sigusr2 g)
    else child_sighandler signal g

unfoldable pub child_pending_signal_handle : Globals → Fate Globals
unfolding child_action
child_pending_signal_handle g =
    and_then (child_action g.signo_child g) λ h. runs (record h { signo_child = 0 })

abbrev pub child_signal_received : ℕ → Globals → Globals
child_signal_received signal g = record g { signo_child = signal }

-- One answer of `waitpid(-1, ..., WNOHANG)`.
pub data Wait : Type 0 where
  reaped : ℕ → Wait  -- a child that has terminated
  still_running : Wait
  interrupted : Wait
  no_child : Wait

-- The children collected, in order, by the answers given one after the other. An answer that there is no
-- status yet makes the code ask once more, and stop if it is the same.
unfoldable pub action_sigchild : List Wait → List ℕ
action_sigchild [] = []
action_sigchild (no_child ∷ answers) = []
action_sigchild (interrupted ∷ answers) = action_sigchild answers
action_sigchild (reaped pid ∷ answers) = pid ∷ action_sigchild answers
action_sigchild (still_running ∷ []) = []
action_sigchild (still_running ∷ still_running ∷ answers) = []
action_sigchild (still_running ∷ no_child ∷ answers) = []
action_sigchild (still_running ∷ interrupted ∷ answers) = action_sigchild answers
action_sigchild (still_running ∷ reaped pid ∷ answers) = pid ∷ action_sigchild answers

-- SIGTERM, SIGINT and SIGQUIT end the process by SIGTERM; `starts` tells whether `serial_ip_init`
-- succeeds when the configuration is read again.
unfoldable pub parent_action : Bool → ℕ → Globals → Fate Globals
unfolding action_sigusr1 action_sigusr2
parent_action starts signal g =
    if signal == sigterm || signal == sigint || signal == sigquit
    then ends (128 + sigterm)
    else if signal == sighup
    then (if starts then runs g else ends 1)
    else if signal == sigusr1
    then runs (action_sigusr1 g)
    else if signal == sigusr2
    then runs (action_sigusr2 g)
    else runs g

unfoldable pub parent_signal_received : Bool → ℕ → Globals → Fate Globals
unfolding parent_action
parent_signal_received starts signal g =
    and_then (parent_action starts signal g) λ h. runs (record h { signo = signal })

-- The names for the log.
abbrev pub signal_names : List (ℕ × Text)
signal_names =
    (sighup, codes "SIGHUP")
    ∷ (sigint, codes "SIGINT")
    ∷ (sigquit, codes "SIGQUIT")
    ∷ (4, codes "SIGILL")
    ∷ (5, codes "SIGTRAP")
    ∷ (6, codes "SIGABRT")
    ∷ (8, codes "SIGFPE")
    ∷ (9, codes "SIGKILL")
    ∷ (7, codes "SIGBUS")
    ∷ (11, codes "SIGSEGV")
    ∷ (sigpipe, codes "SIGPIPE")
    ∷ (14, codes "SIGALRM")
    ∷ (sigterm, codes "SIGTERM")
    ∷ (sigusr1, codes "SIGUSR1")
    ∷ (sigusr2, codes "SIGUSR2")
    ∷ (sigcld, codes "SIGCLD")
    ∷ (30, codes "SIGPWR")
    ∷ (28, codes "SIGWINCH")
    ∷ (29, codes "SIGPOLL")
    ∷ (19, codes "SIGSTOP")
    ∷ (20, codes "SIGTSTP")
    ∷ (18, codes "SIGCONT")
    ∷ (21, codes "SIGTTIN")
    ∷ (22, codes "SIGTTOU")
    ∷ (26, codes "SIGVTALRM")
    ∷ (27, codes "SIGPROF")
    ∷ []

unfoldable pub signame : ℕ → Text
signame signal = switch signal signal_names (codes "unexpected")
