-- ===== src/NetworkController.antt =====
-- network_controller.c: the four moves of bytes between a buffer and a descriptor. The wait of
-- `useconds` before a read and the debugging dumps have no part in it.
pub mod Flow
use serial_ip.Base.{
  ℕ, zero, suc, ◌+◌, ◌%◌, Bool, true, false, Option, none, some, List, [], ◌==◌, if◌then◌else◌,
  ◌>>=◌,
}
use serial_ip.Base.Integer.{ℤ, pos, negsuc}
use serial_ip.Buffer.{
  Buffer, ReadAnswer, WriteAnswer, bfeof, bfstrchr, read_from_fd_to_buffer, write_from_buffer_to_fd,
}
use serial_ip.Telnet.Codes.{iac}
use serial_ip.Telnet.Commands.{process_telnet_options}
use serial_ip.Telnet.Escaping.{escape_iac_chars}
use serial_ip.Telnet.Session.{Session, SessionState, suspend, resume, Outside}

-- `n < 0` of a result
abbrev pub failed : ℤ → ℕ
failed (pos n) = 0
failed (negsuc n) = 1

-- The last component is what went out on the descriptor.
unfoldable pub write_socket : (List ℕ → WriteAnswer) → SessionState → Buffer → ℕ × Buffer × List ℕ
write_socket write suspend b = (0, b, [])
write_socket write resume b =
    let (n, b', bytes) = write_from_buffer_to_fd write b in (failed n, b', bytes)

unfoldable pub write_serial : (List ℕ → WriteAnswer) → Buffer → ℕ × Buffer × List ℕ
write_serial write b = let (n, b', bytes) = write_from_buffer_to_fd write b in (failed n, b', bytes)

-- `linestate |= CPC_LINESTATE_DATA_READY`
abbrev pub data_ready : ℕ → ℕ
data_ready linestate = if linestate % 2 == 0 then linestate + 1 else linestate

-- The escaping, if the search found an IAC.
unfoldable pub escape_found : Option ℕ → Buffer → Option Buffer
escape_found none b = some b
escape_found (some p) b = escape_iac_chars b

abbrev pub quote : Bool → Buffer → Option Buffer
quote true b = some b
quote false b = bfstrchr b iac >>= λ found. escape_found found b

-- `read` of 0 bytes: end of file or an interruption
abbrev pub at_eof : Buffer → ℕ
at_eof b = if bfeof b then 1 else 0

-- behind the read; the last component is `linestate`
unfoldable pub read_serial_from : Bool → ℕ → ℤ → Buffer → Option (ℕ × Buffer × ℕ)
read_serial_from noquote linestate (negsuc n) b = some (1, b, linestate)
read_serial_from noquote linestate (pos zero) b = some (at_eof b, b, linestate)
read_serial_from noquote linestate (pos (suc n)) b =
    quote noquote b >>= λ b'. some (0, b', data_ready linestate)

unfoldable pub read_serial : (ℕ → ReadAnswer) → Bool → Buffer → ℕ → Option (ℕ × Buffer × ℕ)
read_serial read noquote b linestate =
    read_from_fd_to_buffer read b >>= λ (n, b'). read_serial_from noquote linestate n b'

-- The commands, if the search found an IAC.
unfoldable pub process_found : Outside → Option ℕ → Buffer → Session → Option (Buffer × Session)
process_found os none b s = some (b, s)
process_found os (some p) b s = process_telnet_options os b s

abbrev pub interpret : Outside → Bool → Buffer → Session → Option (Buffer × Session)
interpret os true b s = some (b, s)
interpret os false b s = bfstrchr b iac >>= λ found. process_found os found b s

-- behind the read
unfoldable pub read_socket_from :
    Outside → Bool → ℤ → Buffer → Session → Option (ℕ × Buffer × Session)
read_socket_from os raw_flag (negsuc n) b s = some (1, b, s)
read_socket_from os raw_flag (pos zero) b s = some (at_eof b, b, s)
read_socket_from os raw_flag (pos (suc n)) b s =
    interpret os raw_flag b s >>= λ (b', s'). some (0, b', s')

-- In raw mode nothing is read and `n` is what its storage happens to hold, `unset` here.
unfoldable pub read_socket :
    Outside → (ℕ → ReadAnswer) → Bool → ℤ → Buffer → Session → Option (ℕ × Buffer × Session)
read_socket os read true unset b s = read_socket_from os true unset b s
read_socket os read false unset b s =
    read_from_fd_to_buffer read b >>= λ (n, b'). read_socket_from os false n b' s
