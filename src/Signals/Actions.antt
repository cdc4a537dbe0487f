-- ===== src/Signals/Actions.antt =====
-- What the actions on signals keep, and what they change.
use serial_ip.Base.{
  ℕ, ◌+◌, ◌≤◌, ◌<◌, min, Bool, Bool-cases, ◌⊎◌, inl, inr, List, [], ◌∷◌, ◌++◌, ◌≡◌, ◌↔◌, refl, ap,
  arith, ◌==◌,
}
use serial_ip.Signals.{
  Debug, dropped, max_level, write_to_debuglog, set_debug_level, Globals, runs, ends, and_then,
  sigint, sigusr1, sigusr2, child_sighandler, child_action, child_pending_signal_handle,
  parent_signal_received, parent_action, action_sigusr1, action_sigusr2, Wait, reaped, interrupted,
  no_child, still_running, action_sigchild, telnet_sigint,
}

-- The level stays in its range.
abbrev pub InRange : Globals → Type 0
InRange g = g.debug.debug_level ≤ max_level

-- A pending signal ends the process with 128 and its number, or is cleared with the debug level
-- still in its range.
pub child_pending_signal_handle-InRange :
    (g : Globals)
    → InRange g
    → ((signal : ℕ) × (signal ≡ g.signo_child)
        × (child_pending_signal_handle g ≡ ends (128 + signal)))
      ⊎ ((h : Globals) × (child_pending_signal_handle g ≡ runs h) × (h.signo_child ≡ 0) × InRange h)
unfolding child_pending_signal_handle child_action action_sigusr1 action_sigusr2 set_debug_level
    telnet_sigint child_sighandler
child_pending_signal_handle-InRange g h = elim (Bool-cases (g.signo_child == 0)) [
  | inl none ↦ rw none (inr (_, refl, refl, h))
  | inr a ↦ rw a (elim (Bool-cases (g.signo_child == sigint)) [
    | inl break ↦ rw break (inr (_, refl, refl, h))
    | inr b ↦ rw b (elim (Bool-cases (g.signo_child == sigusr1)) [
      | inl more ↦ rw more (inr (_, refl, refl, ground arith))
      | inr c ↦ rw c (elim (Bool-cases (g.signo_child == sigusr2)) [
        | inl less ↦ rw less (inr (_, refl, refl, ground arith))
        | inr d ↦ rw d (inl (g.signo_child, refl, refl))
      ])
    ])
  ])
]

-- SIGUSR1 handled twice raises the level by two, up to 9.
pub parent_signal_received-twice :
    (starts : Bool) (g : Globals)
    → InRange g
    → (h : Globals) × (and_then
          (parent_signal_received starts sigusr1 g)
          (parent_signal_received starts sigusr1)
        ≡ runs h)
      × (h.debug.debug_level ≡ min max_level (g.debug.debug_level + 2))
unfolding parent_signal_received parent_action action_sigusr1 set_debug_level
parent_signal_received-twice starts g h = (_, refl, ground arith)

-- The children whose termination the answers tell.
abbrev pub pids : List Wait → List ℕ
pids [] = []
pids (reaped pid ∷ answers) = pid ∷ pids answers
pids (_ ∷ answers) = pids answers

-- No answer says that a child still runs or that there is none.
abbrev pub Terminated : List Wait → Type 0
Terminated [] = Unit {0}
Terminated (reaped pid ∷ answers) = Terminated answers
Terminated (interrupted ∷ answers) = Terminated answers
Terminated (_ ∷ answers) = ⊥

-- When waitpid tells of children that have terminated and of interruptions, in any order, and then
-- that there is no child, `action_sigchild` collects exactly these children, in order.
pub action_sigchild-pids :
    (answers rest : List Wait)
    → Terminated answers
    → action_sigchild (answers ++ no_child ∷ rest) ≡ pids answers
unfolding action_sigchild
action_sigchild-pids [] rest h = refl
action_sigchild-pids (reaped pid ∷ answers) rest h =
    ap (λ l. pid ∷ l) (action_sigchild-pids answers rest h)
action_sigchild-pids (still_running ∷ answers) rest h = absurd h
action_sigchild-pids (no_child ∷ answers) rest h = absurd h
action_sigchild-pids (interrupted ∷ answers) rest h = action_sigchild-pids answers rest h

-- A line is dropped exactly if its level is above the debug level.
pub write_to_debuglog-dropped :
    (fails : Bool) (level : ℕ) (d : Debug)
    → ((write_to_debuglog fails level d).0 ≡ dropped) ↔ (d.debug_level < level)
unfolding write_to_debuglog
write_to_debuglog-dropped fails level d = ground arith
