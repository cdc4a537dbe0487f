-- ===== src/Examples.antt =====
-- Concrete buffers, sessions and devices for the examples.
mod Opening
mod Accepted
mod Wire
mod Buffers
mod Options
mod Device
mod Texts
mod Ports
mod Lines
mod Locks
mod Races
mod Connections
mod Starts
use serial_ip.Base.{
  ℕ, ◌+◌, ◌≤◌, ◌<◌, true, false, Option, none, some, List, [], ◌∷◌, ◌≡◌, refl, arith, length,
  get_or,
}
use serial_ip.Base.Text.{codes}
use serial_ip.Buffer.{Buffer, WriteAnswer, taken, ReadAnswer, stored}
use serial_ip.Buffer.Invariant.{IsValid, Holds}
use serial_ip.Buffer.Drain.{IsBoundedWrite}
use serial_ip.Serial.Line.{Line, Driver}
use serial_ip.Serial.Line.Replies.{Answers}
use serial_ip.Serial.Speed.{b9600}
use serial_ip.Serial.Termios.{cs8}
use serial_ip.Telnet.Negotiation.{options_off}
use serial_ip.Telnet.Negotiation.Stream.{IsBounded, HasRoom}
use serial_ip.Telnet.Session.{Session, Outside, ascii, resume, suspend}

-- A buffer of 512 bytes that holds `xs` from its start on.
abbrev pub filled : List ℕ → Buffer
filled xs = record {
  size = 512;
  nbuffered = length xs;
  eof = false;
  label = [];
  mem = λ j. get_or xs j 0;
  tailp = 512;
  readp = length xs;
  writep = 0;
}

-- A socket that takes all it is offered.
abbrev pub takes_all : List ℕ → WriteAnswer
takes_all bs = taken (length bs)

pub takes_all-IsBoundedWrite : IsBoundedWrite takes_all
takes_all-IsBoundedWrite bs = omega arith

abbrev pub device : Driver
device = record { gets = λ _. true; sets = λ _. true }

pub device-Answers : Answers device
device-Answers = ((λ k. refl), λ k. refl)

abbrev pub world : Outside
world = record {
  write = λ _. takes_all;
  driver = device;
  allocates = λ _. true;
  program_name = codes "serial_ip";
  version = codes "1.0";
  si = none;
}

pub world-IsBounded : IsBounded world
world-IsBounded k bs = omega arith

abbrev pub line : Line
line = record {
  flags = record {
    cstopb = false;
    parenb = false;
    parodd = false;
    cread = true;
    clocal = true;
    crtscts = false;
    csize = cs8;
    ospeed = b9600;
  };
  ioctls = 0;
}

-- A running session that nothing was negotiated in, and nothing sent.
abbrev pub session : Session
session = record {
  tnoptions = λ _. options_off;
  client_mode = ascii;
  server_mode = ascii;
  session_state = resume;
  break_signaled = false;
  ask_client_signature = true;
  client_logged_in = true;
  out = filled [];
  sent = [];
  writes = 0;
  line = line;
}

pub session-HasRoom : (n : ℕ) → n ≤ 512 → HasRoom session n
session-HasRoom n h = record {
  valid = record {
    nonempty = omega arith;
    tail_at = refl;
    between = refl;
    inside = omega arith;
    reset = λ _. refl;
  };
  room = omega arith;
}
