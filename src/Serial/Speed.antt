-- ===== src/Serial/Speed.antt =====
-- The speed tables of utilities.c. The symbols of <termios.h> are the constructors of a type; Linux
-- has all those that the code tests for by `#ifdef`, and more, which are `other`.
use serial_ip.Base.{ℕ, ◌≡◌, ◌≢◌, ◌∙◌, refl, List, [], ◌∷◌, arith, if◌then◌else◌}
use serial_ip.Base.Switch.{
  switch, has_case, switch-Inverts, has_case-switch, has_case-Covers, Covers,
}

-- `speed_t`
pub data Speed : Type 0 where
  b0 b50 b75 b110 b134 b150 b200 b300 b600 b1200 : Speed
  b1800 b2400 b4800 b9600 b19200 b38400 b57600 b115200 b230400 b460800 : Speed
  other : ℕ → Speed

unfoldable pub speed_t2ulong : Speed → ℕ
speed_t2ulong b0 = 0
speed_t2ulong b50 = 50
speed_t2ulong b75 = 75
speed_t2ulong b110 = 110
speed_t2ulong b134 = 134
speed_t2ulong b150 = 150
speed_t2ulong b200 = 200
speed_t2ulong b300 = 300
speed_t2ulong b600 = 600
speed_t2ulong b1200 = 1200
speed_t2ulong b1800 = 1800
speed_t2ulong b2400 = 2400
speed_t2ulong b4800 = 4800
speed_t2ulong b9600 = 9600
speed_t2ulong b19200 = 19200
speed_t2ulong b38400 = 38400
speed_t2ulong b57600 = 57600
speed_t2ulong b115200 = 115200
speed_t2ulong b230400 = 230400
speed_t2ulong b460800 = 460800
speed_t2ulong (other n) = 9600

-- the cases of `ulong2speed_t`
abbrev pub speed_cases : List (ℕ × Speed)
speed_cases =
    (0, b0)
    ∷ (50, b50)
    ∷ (75, b75)
    ∷ (110, b110)
    ∷ (134, b134)
    ∷ (150, b150)
    ∷ (200, b200)
    ∷ (300, b300)
    ∷ (600, b600)
    ∷ (1200, b1200)
    ∷ (1800, b1800)
    ∷ (2400, b2400)
    ∷ (4800, b4800)
    ∷ (9600, b9600)
    ∷ (19200, b19200)
    ∷ (38400, b38400)
    ∷ (57600, b57600)
    ∷ (115200, b115200)
    ∷ (230400, b230400)
    ∷ (460800, b460800)
    ∷ []

unfoldable pub ulong2speed_t : ℕ → Speed
ulong2speed_t s = switch s speed_cases b9600

-- the cases of `valid_serial_speed`, all with one body
abbrev valid_speed_cases : List (ℕ × ℕ)
valid_speed_cases =
    (0, 1)
    ∷ (50, 1)
    ∷ (75, 1)
    ∷ (110, 1)
    ∷ (134, 1)
    ∷ (150, 1)
    ∷ (200, 1)
    ∷ (300, 1)
    ∷ (600, 1)
    ∷ (1200, 1)
    ∷ (2400, 1)
    ∷ (4800, 1)
    ∷ (9600, 1)
    ∷ (19200, 1)
    ∷ (38400, 1)
    ∷ (57600, 1)
    ∷ (115200, 1)
    ∷ (230400, 1)
    ∷ (460800, 1)
    ∷ []

unfoldable pub valid_serial_speed : ℕ → ℕ
valid_serial_speed speed = switch speed valid_speed_cases 0

-- Converting a speed to its symbol and back gives the speed itself when the table has it, and 9600
-- for any other number.
pub speed_t2ulong-ulong2speed_t :
    (s : ℕ) → speed_t2ulong (ulong2speed_t s) ≡ (if has_case s speed_cases then s else 9600)
unfolding speed_t2ulong ulong2speed_t
speed_t2ulong-ulong2speed_t s = switch-Inverts speed_t2ulong s speed_cases b9600 (omega arith)

-- Each symbol of the table is converted to its speed and back to itself.
pub ulong2speed_t-speed_t2ulong :
    (v : Speed) → ((n : ℕ) → v ≢ other n) → ulong2speed_t (speed_t2ulong v) ≡ v
unfolding speed_t2ulong ulong2speed_t
ulong2speed_t-speed_t2ulong (other n) h = absurd (h n refl)
ulong2speed_t-speed_t2ulong b0 h = refl
ulong2speed_t-speed_t2ulong _ h = refl

valid_covered : Covers valid_speed_cases speed_cases
valid_covered = ground arith

-- A speed that `valid_serial_speed` accepts is the speed of the symbol that it is converted to.
pub valid_serial_speed_exact :
    (s : ℕ) → valid_serial_speed s ≡ 1 → speed_t2ulong (ulong2speed_t s) ≡ s
unfolding valid_serial_speed
valid_serial_speed_exact s h =
    let found = has_case-switch s valid_speed_cases 0 (λ e. absurd (omega arith)) in
    speed_t2ulong-ulong2speed_t s
    ∙ rw (has_case-Covers s valid_speed_cases speed_cases valid_covered found)
