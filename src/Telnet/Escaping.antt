-- ===== src/Telnet/Escaping.antt =====
-- `escape_iac_chars`: each IAC that came from the serial line is doubled before it goes to the client.
pub mod Doubled
use serial_ip.Base.{ℕ, zero, suc, ◌+◌, ◌-◌, Option, none, some, ltb, if◌then◌else◌, ◌>>=◌}
use serial_ip.Buffer.{Buffer, limit, bfinsch, bf_point_to_active_portion}
use serial_ip.Telnet.Codes.{iac}
use serial_ip.Telnet.Scan.{mystrchr}

-- After a search from `from` on, with `size` bytes left there: go on at the IAC found, or stop.
abbrev pub go_on : (ℕ → ℕ → Option Buffer) → Buffer → ℕ → ℕ → Option ℕ → Option Buffer
go_on loop b from size none = some b
go_on loop b from size (some at) = loop at (size - (at - from))

-- The `while (! done)` loop on fuel; `at` is the pointer `iac`. `none` is a fault, or no fuel left.
unfoldable pub escape_loop : ℕ → Buffer → ℕ → ℕ → Option Buffer
escape_loop zero b at size = none
escape_loop (suc fuel) b at size = bfinsch b at iac >>= λ (r, b').
    let size' = size + 1 - 2 in
    if ltb 0 size'
    then mystrchr (limit b') b'.mem (at + 2) iac size'
      >>= go_on (escape_loop fuel b') b' (at + 2) size'
    else some b'

unfoldable pub escape_iac_chars : Buffer → Option Buffer
escape_iac_chars b =
    let (ptr, size) = bf_point_to_active_portion b in
    mystrchr (limit b) b.mem ptr iac size >>= go_on (escape_loop size b) b ptr size
