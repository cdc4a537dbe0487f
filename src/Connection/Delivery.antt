-- ===== src/Connection/Delivery.antt =====
-- What one round delivers in each direction, from read to write.
use serial_ip.Base.{
  ℕ, ◌+◌, ◌≤◌, false, some, List, [], ◌∷◌, ◌++◌, ◌≡◌, refl, ap, ◌∙◌, append_assoc, take, drop,
  take-append-drop, length,
}
use serial_ip.Buffer.{Buffer, stored, WriteAnswer}
use serial_ip.Buffer.Drain.{IsBoundedWrite}
use serial_ip.Buffer.Fill.{IsBoundedRead, answer}
use serial_ip.Buffer.Invariant.{Holds}
use serial_ip.Connection.{
  Settings, Connection, Round, to_device, to_client, from_client, from_device,
}
use serial_ip.NetworkController.{write_serial, write_socket, data_ready}
use serial_ip.NetworkController.Flow.{read_serial-doubled, read_socket-decoded, write_socket-Holds}
use serial_ip.Telnet.Commands.Items.{Item, AreItems, encoded, decoded, run}
use serial_ip.Telnet.Escaping.Doubled.{doubled, count_iac}
use serial_ip.Telnet.Session.{Session, Outside, resume}

-- The device is written to like a socket that is not suspended.
as_socket :
    (write : List ℕ → WriteAnswer) (b : Buffer) → write_serial write b ≡ write_socket write resume b
unfolding write_serial write_socket
as_socket write b = refl

-- The bytes went out, or wait in the buffer, in order.
pub record Passed (before : List ℕ) (bytes : List ℕ) (after : List ℕ) (b : Buffer) : Type 0 where
  pub kept : List ℕ
  pub held : Holds b kept
  pub order : after ++ kept ≡ before ++ bytes

written :
    (before xs : List ℕ) (n : ℕ) (b : Buffer)
    → Holds b (drop n xs)
    → Passed before xs (before ++ take n xs) b
written before xs n b h = record {
  kept = drop n xs;
  held = h;
  order = append_assoc before (take n xs) (drop n xs) ∙ ap (◌++◌ before) (take-append-drop n xs);
}

module _ (r : Round) (c : Connection) (xs : List ℕ) where
  to_client-Passed :
      IsBoundedWrite r.on_socket
      → Holds c.serial_to_socket xs
      → let d = to_client r c in
        Passed c.to_socket xs d.to_socket d.serial_to_socket × (d.session ≡ c.session)
  to_client-Passed bounded h =
      let (n, after, held, e, same) =
        write_socket-Holds r.on_socket c.session.session_state c.serial_to_socket xs bounded h in
      rw e (written c.to_socket xs n after held, refl)

  to_device-Passed :
      IsBoundedWrite r.on_serial
      → Holds c.socket_to_serial xs
      → let d = to_device r c in
        Passed c.to_serial xs d.to_serial d.socket_to_serial × (d.session ≡ c.session)
  to_device-Passed bounded h =
      let (n, after, held, e, same) =
        write_socket-Holds r.on_serial resume c.socket_to_serial xs bounded h in
      rw (as_socket r.on_serial c.socket_to_serial, e) (written c.to_serial xs n after held, refl)

module _ (conf : Settings) (r : Round) (c : Connection) (telnet : conf.raw_flag ≡ false) where
  -- Outside raw mode, with quoting on, the buffer towards the client empty and room for the bytes
  -- read and one more for each IAC, a round's work for the device returns: the bytes read, each
  -- IAC doubled, have gone to the socket or wait in the buffer, in order, behind what went there
  -- before, the session is as it was and the line state notes that data is ready.
  pub from_device-Passed :
      (x : ℕ) (xs : List ℕ)
      → conf.noquote ≡ false
      → IsBoundedRead r.from_serial
      → IsBoundedWrite r.on_socket
      → Holds c.serial_to_socket []
      → answer r.from_serial c.serial_to_socket ≡ stored (x ∷ xs)
      → c.serial_to_socket.readp + length (x ∷ xs) + count_iac (x ∷ xs) ≤ c.serial_to_socket.size
      → (d : Connection) × (from_device conf r c ≡ some d)
        × Passed c.to_socket (doubled (x ∷ xs)) d.to_socket d.serial_to_socket
        × (d.session ≡ c.session)
        × (d.globals.linestate ≡ data_ready c.globals.linestate)
  unfolding from_device
  from_device-Passed x xs quotes reads writes h e room =
      let (b, got, held) =
        read_serial-doubled r.from_serial c.serial_to_socket [] x xs c.globals.linestate reads h e
          room in
      let read = record c {
        error = 0;
        serial_to_socket = b;
        globals = record c.globals { linestate = data_ready c.globals.linestate };
      } in
      let (passed, same) = to_client-Passed r read (doubled (x ∷ xs)) writes held in
      (to_client r read, rw (telnet, quotes, got) refl, passed, same, refl)

  -- Outside raw mode, when the socket delivers at least one byte that together with the bytes held
  -- completes a well-formed stream (suboptions without an SE, at most 255 bytes long with their
  -- IACs doubled), whose commands lead from the session to `s`, and the device takes no more than
  -- it is offered, a round's work for the socket returns: the data of the stream has gone to the
  -- device or waits in the buffer, in order, behind what went there before, and the session is
  -- `s`.
  pub from_client-Passed :
      (os : Outside) (xs : List ℕ) (y : ℕ) (ys : List ℕ) (items : List Item) (s : Session)
      → IsBoundedRead r.from_socket
      → IsBoundedWrite r.on_serial
      → Holds c.socket_to_serial xs
      → answer r.from_socket c.socket_to_serial ≡ stored (y ∷ ys)
      → xs ++ y ∷ ys ≡ encoded items
      → AreItems items
      → run os items c.session ≡ some s
      → (d : Connection) × (from_client os conf r c ≡ some d)
        × Passed c.to_serial (decoded items) d.to_serial d.socket_to_serial
        × (d.session ≡ s)
  unfolding from_client
  from_client-Passed os xs y ys items s reads writes h e bytes are acts =
      let (b, got, held) =
        read_socket-decoded os r.from_socket r.unset c.socket_to_serial xs y ys items c.session s
          reads h e bytes are acts in
      let (passed, same) =
        to_device-Passed r (record c { socket_to_serial = b; session = s }) (decoded items) writes
          held in
      (
        to_device r (record c { socket_to_serial = b; session = s }),
        rw (telnet, got) refl,
        passed,
        same,
      )
