-- ===== src/Telnet/Commands.antt =====
-- `process_telnet_options`: the commands that the client sent are taken out of the buffer of bytes
-- on their way to the serial line, and acted on.
pub mod Items
pub mod Steps
pub mod Decoded
pub mod RoundTrip
use serial_ip.Base.{
  ℕ, zero, suc, ◌+◌, ◌-◌, Bool, true, false, ◌&&◌, ◌||◌, Option, none, some, List, ◌==◌, ltb,
  if◌then◌else◌, ◌>>=◌,
}
use serial_ip.Base.Memory.{load, window}
use serial_ip.Buffer.{Buffer, limit, bfrmstr, bf_point_to_active_portion}
use serial_ip.Telnet.Codes.{iac, sb, se, will, wont, do_, dont, telopt_com_port_option}
use serial_ip.Telnet.Cpc.{process_telnet_cpc_suboption}
use serial_ip.Telnet.Negotiation.{respond_telnet_option, telnet_client_option_is_enabled}
use serial_ip.Telnet.Scan.{mystrchr}
use serial_ip.Telnet.Session.{Session, Outside}

-- The loop's variables: `socket_to_serial_buf`, the pointer `iac`, `size`, and the session. A size
-- that the code lets fall below 0 is 0 here: both end the loop and find nothing.
pub record Round : Type 0 where
  pub buf : Buffer
  pub at : ℕ
  pub size : ℕ
  pub session : Session

-- `bfrmstr`, whose result is not looked at
abbrev pub remove : ℕ → Round → Option Round
remove n r = bfrmstr r.buf r.at n >>= λ (_, b). some (record r { buf = b; size = r.size - n })

-- `case IAC`: one of the two is removed and both are passed.
unfoldable pub on_iac : Round → Option Round
on_iac r =
    bfrmstr r.buf r.at 1 >>= λ (_, b). some (record r { buf = b; at = r.at + 1; size = r.size - 2 })

-- `case WILL, DO, DONT, WONT`
unfoldable pub on_proposal : Outside → ℕ → Round → Option Round
on_proposal os optcode r = load (limit r.buf) r.buf.mem (r.at + 2) >>= λ option.
    respond_telnet_option os optcode option r.session >>= λ (_, s).
    remove 3 (record r { session = s })

-- behind the search for SE
abbrev pub remove_suboption : Round → Option ℕ → Option Round
remove_suboption r none = some (record r { at = r.at + 3; size = r.size - 3 })
remove_suboption r (some p) = remove (p - r.at + 1) r

-- `case SB`
unfoldable pub on_suboption : Outside → Round → Option Round
on_suboption os r = load (limit r.buf) r.buf.mem (r.at + 2) >>= λ option.
    (if option == telopt_com_port_option && telnet_client_option_is_enabled option r.session
      then (process_telnet_cpc_suboption os (window r.buf.mem (r.at + 3) (r.size - 3)) r.session
          >>= λ (_, s). some s)
      else some r.session)
    >>= λ s. mystrchr (limit r.buf) r.buf.mem (r.at + 3) se (r.size - 3) >>= λ found.
        remove_suboption (record r { session = s }) found

-- the switch on the byte behind IAC
unfoldable pub on_command : Outside → Round → Option Round
on_command os r = load (limit r.buf) r.buf.mem (r.at + 1) >>= λ optcode.
    if optcode == iac
    then on_iac r
    else if optcode == will || optcode == do_ || optcode == dont || optcode == wont
    then on_proposal os optcode r
    else if optcode == sb
    then on_suboption os r
    else remove 2 r

-- Behind a search from `r.at` on: stop, or go on at the IAC found if a whole command may follow.
unfoldable pub next_command : (Round → Option Round) → Round → Option ℕ → Option Round
next_command loop r none = some r
next_command loop r (some at) =
    let size = r.size - (at - r.at) in
    if ltb size 2
    then some (record r { at = at; size = size })
    else loop (record r { at = at; size = size })

-- The `while (! done)` loop on fuel. `none` is a fault, or no fuel left.
unfoldable pub command_loop : Outside → ℕ → Round → Option Round
command_loop os zero r = none
command_loop os (suc fuel) r = on_command os r >>= λ r'.
    if ltb r'.size 2
    then some r'
    else mystrchr (limit r'.buf) r'.buf.mem r'.at iac r'.size
      >>= next_command (command_loop os fuel) r'

unfoldable pub process_telnet_options : Outside → Buffer → Session → Option (Buffer × Session)
process_telnet_options os b s =
    let (ptr, size) = bf_point_to_active_portion b in
    let start : Round = record { buf = b; at = ptr; size = size; session = s } in
    mystrchr (limit b) b.mem ptr iac size
    >>= next_command (command_loop os (suc size)) start
    >>= λ r. some (r.buf, r.session)
