-- ===== src/Raw.antt =====
-- raw.c: bytes between the socket and the serial port without Telnet. The arrays are blocks of
-- memory, whose contents at the start are parameters.
pub mod Forwarded
use serial_ip.Base.{
  ℕ, zero, suc, ◌+◌, ◌*◌, ◌/◌, ◌%◌, Bool, true, false, Option, none, some, List, [], ◌∷◌, ◌==◌,
  if◌then◌else◌, ◌>>=◌, length, take,
}
use serial_ip.Base.Integer.{ℤ, pos, negsuc}
use serial_ip.Base.Memory.{Memory, store, window, copy_in}
use serial_ip.Buffer.{
  ReadAnswer, stored, read_interrupted, read_failed, WriteAnswer, taken, write_interrupted,
  write_failed,
}

-- Both orders swap the two bytes of a little-endian `uint16_t`.
unfoldable pub pack_uint16_t : Bool → ℕ → ℕ
pack_uint16_t true num = num % 256 * 256 + num / 256 % 256
pack_uint16_t false num = num % 256 * 256 + num / 256 % 256

-- The first answer ends the loop of `serialip_xmit`, whatever it is.
abbrev pub received : ReadAnswer → ℤ × List ℕ
received (stored bytes) = (pos (length bytes), bytes)
received read_interrupted = (negsuc 0, [])
received read_failed = (negsuc 0, [])

-- `recv` of at most `bufflen` bytes: the result and the bytes stored
unfoldable pub read_from_raw_tcp_buffer : (ℕ → ReadAnswer) → ℕ → ℤ × List ℕ
read_from_raw_tcp_buffer recv zero = (pos 0, [])
read_from_raw_tcp_buffer recv (suc bufflen) = received (recv (suc bufflen))

abbrev pub sent_bytes : List ℕ → WriteAnswer → ℤ × List ℕ
sent_bytes bytes (taken n) = (pos n, take n bytes)
sent_bytes bytes write_interrupted = (negsuc 0, [])
sent_bytes bytes write_failed = (negsuc 0, [])

-- `send`: the result and the bytes that went out; without any there is no call.
unfoldable pub serialip_send : (List ℕ → WriteAnswer) → List ℕ → ℤ × List ℕ
serialip_send send [] = (pos 0, [])
serialip_send send (c ∷ cs) = sent_bytes (c ∷ cs) (send (c ∷ cs))

abbrev pub raw_size : ℕ
raw_size = 256

-- MAX_LEN_MESSAGE
abbrev pub command_size : ℕ
command_size = 100

-- The write to the serial port and the error behind it: `error`, or 1 if the write fails.
abbrev pub forward : (List ℕ → WriteAnswer) → ℕ → List ℕ → ℕ × List ℕ
forward write error bytes =
    let (n, out) = sent_bytes bytes (write bytes) in (elim n [ pos k ↦ error | negsuc k ↦ 1 ], out)

-- behind the read: the copies, their ends, and what is written
unfoldable pub after_recv :
    (List ℕ → WriteAnswer) → Memory → Memory → ℤ × List ℕ → Option (ℕ × List ℕ)
after_recv write raw_buffer command (negsuc n, bytes) = some (forward write 1 [])
after_recv write raw_buffer command (pos zero, bytes) =
    some (forward write 1 (window raw_buffer 0 1))
after_recv write raw_buffer command (pos (suc n), bytes) = do
  raw ← copy_in raw_size 0 bytes raw_buffer
  copied ← copy_in command_size 0 bytes command
  ended ← store command_size copied (suc n) 0
  raw_ended ← store raw_size raw (suc n) 0
  some (forward write 0 (window raw_ended 0 (suc n + 1)))

-- The error, and what went out on the serial port.
unfoldable pub raw_tcp_socket_to_serial :
    (ℕ → ReadAnswer) → (List ℕ → WriteAnswer) → Memory → Memory → Option (ℕ × List ℕ)
unfolding after_recv read_from_raw_tcp_buffer
raw_tcp_socket_to_serial recv write raw_buffer command =
    after_recv write raw_buffer command (read_from_raw_tcp_buffer recv raw_size)

-- MAX_BUFFER_LENGTH, the size of `data`
abbrev pub data_size : ℕ
data_size = 200

-- `data` and the two bytes of `version` behind it, the structure being packed
abbrev pub data_block : ℕ
data_block = 202

abbrev pub zeroed : Memory
zeroed i = 0

abbrev pub newline : ℕ
newline = 10

-- `serialip_send(...) < 0`
abbrev pub send_data : (List ℕ → WriteAnswer) → List ℕ → ℕ × List ℕ
send_data send bytes =
    let (n, out) = serialip_send send bytes in (elim n [ pos k ↦ 0 | negsuc k ↦ 1 ], out)

-- behind the read; after an error nothing is sent
unfoldable pub after_data : (List ℕ → WriteAnswer) → ReadAnswer → Option (ℕ × List ℕ)
after_data send read_failed = some (1, [])
after_data send read_interrupted = some (1, [])
after_data send (stored bytes) = do
  copied ← copy_in data_block 0 bytes zeroed
  ended ← store data_block copied (length bytes) newline
  some (send_data send (window ended 0 (length bytes + 1)))

-- The error, and what went out on the socket.
unfoldable pub raw_data_to_tcp_socket :
    (ℕ → ReadAnswer) → (List ℕ → WriteAnswer) → Option (ℕ × List ℕ)
unfolding after_data
raw_data_to_tcp_socket read send = after_data send (read data_size)
