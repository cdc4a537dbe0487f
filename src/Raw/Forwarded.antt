-- ===== src/Raw/Forwarded.antt =====
-- What the two directions of raw mode pass on.
use serial_ip.Base.{
  ℕ, suc, ◌+◌, ◌≤◌, ◌<◌, none, some, List, [], ◌∷◌, ◌++◌, ◌≡◌, ap, ap₂, ◌∙◌, inl, inr, arith,
  length, Bool-cases, take, refl, ltb, ltb_of_lt, ltb_of_le,
}
use serial_ip.Base.Memory.{
  Memory, window, copied_in, window-add, window-get_or, copy_in_lem, copy_in_fault, update,
}
use serial_ip.Buffer.{ReadAnswer, stored, WriteAnswer, taken, write_interrupted, write_failed}
use serial_ip.Raw.{
  read_from_raw_tcp_buffer, forward, after_recv, raw_tcp_socket_to_serial, send_data, after_data,
  raw_data_to_tcp_socket, newline, data_size, data_block, zeroed, raw_size, command_size,
}

-- Bytes put at the start of a block and one byte behind them.
window-terminated :
    (bytes : List ℕ) (c : ℕ) (m : Memory)
    → window (update (copied_in 0 bytes m) (length bytes) c) 0 (length bytes + 1) ≡ bytes ++ c ∷ []
window-terminated bytes c m =
    let ended = update (copied_in 0 bytes m) (length bytes) c in
    window-add ended 0 (length bytes) 1
    ∙ ap₂ ◌++◌ (window-get_or bytes 0 ended (λ j lt. ground arith))
        (ap (λ v. v ∷ []) (ground arith))

-- What a write gives: the error, and the bytes that were taken.
abbrev pub outcome : WriteAnswer → List ℕ → ℕ × List ℕ
outcome (taken n) bytes = (0, take n bytes)
outcome write_interrupted bytes = (1, [])
outcome write_failed bytes = (1, [])

forward_lem :
    (write : List ℕ → WriteAnswer) (bytes : List ℕ) (answer : WriteAnswer)
    → write bytes ≡ answer
    → forward write 0 bytes ≡ outcome answer bytes
forward_lem write bytes (taken n) e = rw e refl
forward_lem write bytes write_interrupted e = rw e refl
forward_lem write bytes write_failed e = rw e refl

-- A message of 1 to 99 bytes from the socket is offered to the serial port with a NUL behind it:
-- the bytes that the write takes go out and the result is 0, and if it fails or is interrupted
-- none do and the result is 1.
pub raw_tcp_socket_to_serial-forwards :
    (recv : ℕ → ReadAnswer) (write : List ℕ → WriteAnswer) (raw_buffer command : Memory) (c : ℕ)
    (cs : List ℕ)
    → recv raw_size ≡ stored (c ∷ cs)
    → length (c ∷ cs) < command_size
    → raw_tcp_socket_to_serial recv write raw_buffer command
      ≡ some (outcome (write (c ∷ cs ++ 0 ∷ [])) (c ∷ cs ++ 0 ∷ []))
unfolding raw_tcp_socket_to_serial read_from_raw_tcp_buffer after_recv
raw_tcp_socket_to_serial-forwards recv write raw_buffer command c cs e h =
    rw
      (
        e,
        copy_in_lem raw_size 0 (c ∷ cs) raw_buffer (omega arith),
        copy_in_lem command_size 0 (c ∷ cs) command (omega arith),
        ltb_of_lt {a = suc (length cs)} {b = command_size} h,
        ltb_of_lt {a = suc (length cs)} {b = raw_size} (omega arith),
      )
      (ap (λ bs. some (forward write 0 bs)) (window-terminated (c ∷ cs) 0 raw_buffer)
        ∙ ap some (forward_lem write (c ∷ cs ++ 0 ∷ []) _ refl))

-- A message of 100 to 256 bytes is written past the end of an array.
pub raw_tcp_socket_to_serial_fault :
    (recv : ℕ → ReadAnswer) (write : List ℕ → WriteAnswer) (raw_buffer command : Memory)
    (bytes : List ℕ)
    → recv raw_size ≡ stored bytes
    → command_size ≤ length bytes
    → length bytes ≤ raw_size
    → raw_tcp_socket_to_serial recv write raw_buffer command ≡ none
unfolding raw_tcp_socket_to_serial read_from_raw_tcp_buffer after_recv
raw_tcp_socket_to_serial_fault recv write raw_buffer command [] e h k = absurd (omega arith)
raw_tcp_socket_to_serial_fault recv write raw_buffer command (c ∷ cs) e h k =
    rw (e, copy_in_lem raw_size 0 (c ∷ cs) raw_buffer (omega arith))
      (elim (Bool-cases (ltb command_size (suc (length cs)))) [
        | inl more ↦ rw (copy_in_fault command_size 0 (c ∷ cs) command (omega arith) (ground arith))
        | inr same ↦
            let full : suc (length cs) ≡ command_size = ground arith in
            rw (
              copy_in_lem command_size 0 (c ∷ cs) command (omega arith),
              ltb_of_le {a = suc (length cs)} {b = command_size} (omega arith),
            )
      ])

-- What the serial port delivers, up to 200 bytes, goes to the socket with a newline behind it; the
-- result is 1 exactly if that write fails.
pub raw_data_to_tcp_socket-sends :
    (read : ℕ → ReadAnswer) (send : List ℕ → WriteAnswer) (bytes : List ℕ)
    → read data_size ≡ stored bytes
    → length bytes ≤ data_size
    → raw_data_to_tcp_socket read send ≡ some (send_data send (bytes ++ newline ∷ []))
unfolding raw_data_to_tcp_socket after_data
raw_data_to_tcp_socket-sends read send bytes e h =
    rw
      (
        e,
        copy_in_lem data_block 0 bytes zeroed (omega arith),
        ltb_of_lt {a = length bytes} {b = data_block} (omega arith),
      )
      (ap (λ bs. some (send_data send bs)) (window-terminated bytes newline zeroed))
