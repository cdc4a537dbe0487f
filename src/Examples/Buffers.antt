-- ===== src/Examples/Buffers.antt =====
-- The operations on a buffer.
use serial_ip.Base.{ℕ, ◌≤◌, some, List, [], ◌∷◌, ◌≡◌, refl, arith, take, length-take}
use serial_ip.Base.Integer.{pos}
use serial_ip.Buffer.{
  Buffer, ReadAnswer, stored, WriteAnswer, taken, bfrmstr, bfinsch, read_from_fd_to_buffer,
  write_from_buffer_to_fd,
}
use serial_ip.Buffer.Drain.{IsBoundedWrite, write_from_buffer_to_fd-Holds}
use serial_ip.Buffer.Edit.{bfrmstr-Holds, bfinsch-Holds}
use serial_ip.Buffer.Fill.{IsBoundedRead, read_from_fd_to_buffer-Holds}
use serial_ip.Buffer.Invariant.{Holds}
use serial_ip.Examples.{filled}

abbrev hello : List ℕ
hello = 104 ∷ 101 ∷ 108 ∷ 108 ∷ 111 ∷ []

hello-Holds : Holds (filled hello) hello
hello-Holds = record { valid = omega arith; bytes = refl }

bfrmstr-Holds_example :
    (after : Buffer) × (bfrmstr (filled hello) 1 2 ≡ some (2, after))
    × Holds after (104 ∷ 108 ∷ 111 ∷ [])
    × (after.size ≡ 512)
bfrmstr-Holds_example =
    bfrmstr-Holds (filled hello) (104 ∷ []) (101 ∷ 108 ∷ []) (108 ∷ 111 ∷ []) hello-Holds
      (omega arith)

bfinsch-Holds_example :
    (after : Buffer) × (bfinsch (filled hello) 1 255 ≡ some (1, after))
    × Holds after (104 ∷ 255 ∷ 101 ∷ 108 ∷ 108 ∷ 111 ∷ [])
    × (after.size ≡ 512)
    × (after.writep ≡ 0)
    × (after.readp ≡ 6)
bfinsch-Holds_example =
    bfinsch-Holds (filled hello) (104 ∷ []) (101 ∷ 108 ∷ 108 ∷ 111 ∷ []) 255 hello-Holds
      (omega arith)

-- A buffer of 4 bytes, three of which were written out since.
abbrev drained : Buffer
drained = record (filled hello) { size = 4; nbuffered = 1; tailp = 4; readp = 4; writep = 3 }

abbrev line_end : List ℕ
line_end = 33 ∷ 10 ∷ []

abbrev answers : ℕ → ReadAnswer
answers n = stored (take n line_end)

answers-IsBoundedRead : IsBoundedRead answers
answers-IsBoundedRead n = omega (arith, length-take n line_end)

read_from_fd_to_buffer-Holds_example :
    (after : Buffer) × (read_from_fd_to_buffer answers (filled hello) ≡ some (pos 2, after))
    × Holds after (104 ∷ 101 ∷ 108 ∷ 108 ∷ 111 ∷ 33 ∷ 10 ∷ [])
    × (after.size ≡ 512)
    × (after.writep ≡ 0)
read_from_fd_to_buffer-Holds_example =
    read_from_fd_to_buffer-Holds answers (filled hello) hello answers-IsBoundedRead hello-Holds

-- A descriptor that takes two bytes at a time.
abbrev takes_two : List ℕ → WriteAnswer
takes_two (x ∷ y ∷ ys) = taken 2
takes_two _ = taken 0

takes_two-IsBoundedWrite : IsBoundedWrite takes_two
takes_two-IsBoundedWrite [] = omega arith
takes_two-IsBoundedWrite (x ∷ []) = omega arith
takes_two-IsBoundedWrite (x ∷ y ∷ ys) = omega arith

write_from_buffer_to_fd-Holds_example :
    (after : Buffer) × (write_from_buffer_to_fd takes_two (filled hello)
      ≡ (pos 2, after, 104 ∷ 101 ∷ []))
    × Holds after (108 ∷ 108 ∷ 111 ∷ [])
    × (after.size ≡ 512)
    × (after.readp ≤ 5)
write_from_buffer_to_fd-Holds_example =
    write_from_buffer_to_fd-Holds takes_two (filled hello) hello takes_two-IsBoundedWrite
      hello-Holds
