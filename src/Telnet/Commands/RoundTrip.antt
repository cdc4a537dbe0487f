-- ===== src/Telnet/Commands/RoundTrip.antt =====
-- `escape_iac_chars` at one end and `process_telnet_options` at the other.
use serial_ip.Base.{
  ℕ, ◌+◌, ◌≤◌, some, List, [], ◌∷◌, ◌≡◌, refl, inl, inr, ◌==◌, if◌then◌else◌, arith, Bool-cases,
}
use serial_ip.Buffer.{Buffer}
use serial_ip.Buffer.Invariant.{Holds}
use serial_ip.Telnet.Codes.{iac}
use serial_ip.Telnet.Commands.{process_telnet_options}
use serial_ip.Telnet.Commands.Decoded.{process_telnet_options-decoded}
use serial_ip.Telnet.Commands.Items.{Item, plain, command, escaped, AreItems, encoded, decoded, run}
use serial_ip.Telnet.Escaping.{escape_iac_chars}
use serial_ip.Telnet.Escaping.Doubled.{doubled, count_iac, escape_iac_chars-doubled}
use serial_ip.Telnet.Session.{Session, Outside}

-- Any bytes, as a stream without commands.
abbrev stream_items : List ℕ → List Item
stream_items [] = []
stream_items (x ∷ xs) = (if x == iac then command escaped else plain x) ∷ stream_items xs

-- What such a stream is.
record IsData (xs : List ℕ) : Type 0 where
  well : AreItems (stream_items xs)
  bytes : encoded (stream_items xs) ≡ doubled xs
  data_ : decoded (stream_items xs) ≡ xs
  acts : (os : Outside) (s : Session) → run os (stream_items xs) s ≡ some s

stream_items-IsData : (xs : List ℕ) → IsData xs
stream_items-IsData [] = record { well = tt; bytes = refl; data_ = refl; acts = λ os s. refl }
stream_items-IsData (x ∷ xs) =
    let d = stream_items-IsData xs in
    elim (Bool-cases (x == iac)) [
      | inl e ↦ record {
        well = rw e (tt, d.well);
        bytes = rw (e, d.bytes);
        data_ = let same : x ≡ iac = ground arith in rw (e, d.data_, same);
        acts = λ os s. rw (e, d.acts os s);
      }
      | inr e ↦ record {
        well = rw e (ground arith, d.well);
        bytes = rw (e, d.bytes);
        data_ = rw (e, d.data_);
        acts = λ os s. rw (e, d.acts os s);
      }
    ]

-- For any bytes in a valid buffer with room for one more byte for each IAC, what
-- `escape_iac_chars` leaves is turned back into these bytes by `process_telnet_options`, which
-- does not change the session.
pub process_telnet_options-escape_iac_chars :
    (os : Outside) (b : Buffer) (xs : List ℕ) (s : Session)
    → Holds b xs
    → b.readp + count_iac xs ≤ b.size
    → (sent : Buffer) × (received : Buffer) × (escape_iac_chars b ≡ some sent)
      × (process_telnet_options os sent s ≡ some (received, s))
      × Holds received xs
process_telnet_options-escape_iac_chars os b xs s h room =
    let (sent, e, held, same) = escape_iac_chars-doubled b xs h room in
    let d = stream_items-IsData xs in
    let (received, p, held', same') =
      process_telnet_options-decoded os sent (stream_items xs) s s d.well (rw d.bytes held)
        (d.acts os s) in
    (sent, received, e, p, rw d.data_ at held')
