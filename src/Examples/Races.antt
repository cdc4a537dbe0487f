-- ===== src/Examples/Races.antt =====
-- Several processes after the lock of one device.
use serial_ip.Base.{ℕ, [], ◌∷◌, true, not, none, some, ◌≡◌, refl, arith, ◌==◌}
use serial_ip.Base.Integer.{pos}
use serial_ip.Base.Text.{Text}
use serial_ip.Examples.Locks.{calm, lockfile}
use serial_ip.LockFile.Exclusion.{mutual_exclusion}
use serial_ip.LockFile.Files.{pid_bytes, link, unlink, rename}
use serial_ip.LockFile.Race.{
  Race, linking, holding, done, IsProcess, Inv, IsFair, MayEnd, Reach, start, later, turn, exit,
  link_first, link_exists, link_second, open_file, read_pid, kill_pid, remove, drop, release,
}

-- Each process has its temporary file, named and numbered by its process id.
abbrev tmp_of : ℕ → Text
tmp_of p = p ∷ []

abbrev file_of : ℕ → ℕ
file_of p = p

-- Before the first calls; no lock file stands.
abbrev at_start : Race
at_start = record {
  fs = record {
    file_at = λ t. elim t [ [] ↦ none | c ∷ cs ↦ elim cs [ [] ↦ some c | d ∷ ds ↦ none ] ];
    content = pid_bytes;
    next = 0;
  };
  stage = λ p. linking;
  alive = λ p. true;
}

fair : IsFair lockfile tmp_of file_of
fair = record { apart = λ p e. cc; own_name = λ p q e. cc; own_file = λ p q e. e }

start-Inv : Inv lockfile tmp_of file_of at_start
start-Inv = record {
  ready = λ p w. refl;
  numbered = λ p. refl;
  owned = λ p o. cc;
  live = λ i e. cc;
  seen = λ p. tt;
  unbroken = λ p. refl;
}

one : IsProcess 1
one = record { positive = omega arith; small = omega arith }

two : IsProcess 2
two = record { positive = omega arith; small = omega arith }

three : IsProcess 3
three = record { positive = omega arith; small = omega arith }

-- Process 1 takes the lock while process 2 finds it taken.
reached :
    (s : Race) × Reach calm (pos 0) lockfile tmp_of (MayEnd lockfile file_of) at_start s
    × (s.stage 1 ≡ holding)
unfolding link unlink
reached = (
  _,
  later
      (later
        (later
          (later
            (later (later (later start (turn 1 one refl (link_first refl))) (turn 1 one refl drop))
              (turn 2 two refl (link_exists refl)))
            (turn 2 two refl (open_file refl refl)))
          (turn 1 one refl (open_file refl refl)))
        (turn 1 one refl (read_pid refl)))
      (turn 1 one refl kill_pid),
  refl,
)

mutual_exclusion_example : ◌≡◌ {A = ℕ} 1 1
mutual_exclusion_example =
    mutual_exclusion calm (pos 0) fair start-Inv reached.1 1 1 reached.2 reached.2

-- With processes that may end as soon as they have given the lock up: process 2 has read the number of
-- process 1, which then ends; process 3 takes the lock, and process 2 removes it as a stale one.
early_end :
    (s : Race) × Reach calm (pos 0) lockfile tmp_of (λ r p. r.stage p ≡ done) at_start s
    × (s.stage 2 ≡ holding)
    × (s.stage 3 ≡ holding)
unfolding link unlink
early_end =
    let r1 = later start (turn 1 one refl (link_first refl)) in
    let r2 = later r1 (turn 1 one refl drop) in
    let r3 = later r2 (turn 1 one refl (open_file refl refl)) in
    let r4 = later r3 (turn 1 one refl (read_pid refl)) in
    let r5 = later r4 (turn 1 one refl kill_pid) in
    let r6 = later r5 (turn 2 two refl (link_exists refl)) in
    let r7 = later r6 (turn 2 two refl (open_file refl refl)) in
    let r8 = later r7 (turn 2 two refl (read_pid refl)) in
    let r9 = later r8 (turn 1 one refl release) in
    let r10 = later r9 (exit 1 refl) in
    let r11 = later r10 (turn 3 three refl (link_first refl)) in
    let r12 = later r11 (turn 3 three refl drop) in
    let r13 = later r12 (turn 3 three refl (open_file refl refl)) in
    let r14 = later r13 (turn 3 three refl (read_pid refl)) in
    let r15 = later r14 (turn 3 three refl kill_pid) in
    let r16 = later r15 (turn 2 two refl kill_pid) in
    let r17 = later r16 (turn 2 two refl remove) in
    let r18 = later r17 (turn 2 two refl (link_second refl)) in
    let r19 = later r18 (turn 2 two refl drop) in
    let r20 = later r19 (turn 2 two refl (open_file refl refl)) in
    let r21 = later r20 (turn 2 two refl (read_pid refl)) in
    (_, later r21 (turn 2 two refl kill_pid), refl, refl)

-- The lock that the dead process 9 left.
abbrev abandoned : Race
abandoned = record at_start {
  fs = record at_start.fs { file_at = rename at_start.fs.file_at lockfile (some 9) };
  alive = λ p. not (p == 9);
}

-- Two processes find a dead owner; the slower one removes the lock that the faster one has taken since.
abandoned_race :
    (s : Race) × Reach calm (pos 0) lockfile tmp_of (MayEnd lockfile file_of) abandoned s
    × (s.stage 1 ≡ holding)
    × (s.stage 2 ≡ holding)
unfolding link unlink
abandoned_race =
    let r1 = later start (turn 1 one refl (link_exists refl)) in
    let r2 = later r1 (turn 1 one refl (open_file refl refl)) in
    let r3 = later r2 (turn 1 one refl (read_pid refl)) in
    let r4 = later r3 (turn 1 one refl kill_pid) in
    let r5 = later r4 (turn 2 two refl (link_exists refl)) in
    let r6 = later r5 (turn 2 two refl (open_file refl refl)) in
    let r7 = later r6 (turn 2 two refl (read_pid refl)) in
    let r8 = later r7 (turn 2 two refl kill_pid) in
    let r9 = later r8 (turn 1 one refl remove) in
    let r10 = later r9 (turn 1 one refl (link_second refl)) in
    let r11 = later r10 (turn 1 one refl drop) in
    let r12 = later r11 (turn 1 one refl (open_file refl refl)) in
    let r13 = later r12 (turn 1 one refl (read_pid refl)) in
    let r14 = later r13 (turn 1 one refl kill_pid) in
    let r15 = later r14 (turn 2 two refl remove) in
    let r16 = later r15 (turn 2 two refl (link_second refl)) in
    let r17 = later r16 (turn 2 two refl drop) in
    let r18 = later r17 (turn 2 two refl (open_file refl refl)) in
    let r19 = later r18 (turn 2 two refl (read_pid refl)) in
    (_, later r19 (turn 2 two refl kill_pid), refl, refl)
