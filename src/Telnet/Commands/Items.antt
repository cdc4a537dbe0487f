-- ===== src/Telnet/Commands/Items.antt =====
-- The well-formed streams that a client sends, as RFC 854 and RFC 2217 lay them out: the bytes, the
-- data they carry, and what they do to the session.
use serial_ip.Base.{
  ℕ, ◌≤◌, Bool, true, false, ◌||◌, Option, some, List, [], ◌∷◌, ◌++◌, ◌≡◌, ◌≢◌, ◌⊎◌, inl, inr, refl,
  ap, ◌==◌, if◌then◌else◌, ◌>>=◌, length, length-append, arith,
}
use serial_ip.Telnet.Codes.{iac, sb, se, will, wont, do_, dont, telopt_com_port_option}
use serial_ip.Telnet.Cpc.{dispatch}
use serial_ip.Telnet.Escaping.Doubled.{doubled}
use serial_ip.Telnet.Negotiation.{respond_telnet_option, telnet_client_option_is_enabled}
use serial_ip.Telnet.Scan.{Absent}
use serial_ip.Telnet.Session.{Session, Outside}

pub data Command : Type 0 where
  escaped : Command
  proposal : ℕ → ℕ → Command
  suboption : ℕ → List ℕ → Command
  short : ℕ → Command

pub data Item : Type 0 where
  plain : ℕ → Item
  command : Command → Item

-- The bytes behind IAC.
abbrev pub body : Command → List ℕ
body escaped = iac ∷ []
body (proposal optcode option) = optcode ∷ option ∷ []
body (suboption code content) =
    sb ∷ telopt_com_port_option ∷ code ∷ (doubled content ++ iac ∷ se ∷ [])
body (short c) = c ∷ []

abbrev pub is_proposal : ℕ → Bool
is_proposal c = c == will || c == do_ || c == dont || c == wont

-- A code stands where its kind is expected, and no SE is part of a suboption.
abbrev pub IsCommand : Command → Type 0
IsCommand escaped = Unit {0}
IsCommand (proposal optcode option) = is_proposal optcode ≡ true
IsCommand (suboption code content) =
    (code ≢ se) × Absent se content × (length (doubled content) ≤ 255)
IsCommand (short c) = (c == iac ≡ false) × (is_proposal c ≡ false) × (c == sb ≡ false)

abbrev pub IsItem : Item → Type 0
IsItem (plain c) = c ≢ iac
IsItem (command k) = IsCommand k

abbrev pub AreItems : List Item → Type 0
AreItems [] = Unit {0}
AreItems (i ∷ is) = IsItem i × AreItems is

-- The bytes on the wire.
abbrev pub encoded : List Item → List ℕ
encoded [] = []
encoded (plain c ∷ is) = c ∷ encoded is
encoded (command k ∷ is) = iac ∷ (body k ++ encoded is)

-- The data for the serial line.
abbrev pub datum : Command → List ℕ
datum escaped = iac ∷ []
datum (proposal optcode option) = []
datum (suboption code content) = []
datum (short c) = []

abbrev pub decoded : List Item → List ℕ
decoded [] = []
decoded (plain c ∷ is) = c ∷ decoded is
decoded (command k ∷ is) = datum k ++ decoded is

-- What the commands do, in their order.
abbrev pub effect : Outside → Command → Session → Option Session
effect os escaped s = some s
effect os (proposal optcode option) s =
    respond_telnet_option os optcode option s >>= λ (_, s'). some s'
effect os (suboption code content) s =
    if telnet_client_option_is_enabled telopt_com_port_option s
    then (dispatch os code content s >>= λ (_, s'). some s')
    else some s
effect os (short c) s = some s

abbrev pub run : Outside → List Item → Session → Option Session
run os [] s = some s
run os (plain c ∷ is) s = run os is s
run os (command k ∷ is) s = effect os k s >>= run os is

-- The items up to the first command, and those from there on.
pub record Found (items : List Item) : Type 0 where
  pub before : List ℕ
  pub at : Command
  pub behind : List Item
  pub bytes : encoded items ≡ before ++ encoded (command at ∷ behind)
  pub data_ : decoded items ≡ before ++ decoded (command at ∷ behind)
  pub acts : (os : Outside) (s : Session) → run os items s ≡ run os (command at ∷ behind) s
  pub absent : Absent iac before
  pub first_well : IsCommand at
  pub rest_well : AreItems behind

pub record Plain (items : List Item) : Type 0 where
  pub bytes : encoded items ≡ decoded items
  pub acts : (os : Outside) (s : Session) → run os items s ≡ some s
  pub absent : Absent iac (encoded items)

pub next_item : (items : List Item) → AreItems items → Plain items ⊎ Found items
next_item [] w = inl (record { bytes = refl; acts = λ os s. refl; absent = tt })
next_item (command k ∷ is) w = inr (record {
  before = [];
  at = k;
  behind = is;
  bytes = refl;
  data_ = refl;
  acts = λ os s. refl;
  absent = tt;
  first_well = w.0;
  rest_well = w.1;
})
next_item (plain c ∷ is) w = elim (next_item is w.1) [
  | inl p ↦ inl (record { bytes = ap (◌∷◌ c) p.bytes; acts = p.acts; absent = (w.0, p.absent) })
  | inr f ↦ inr (record {
    before = c ∷ f.before;
    at = f.at;
    behind = f.behind;
    bytes = ap (◌∷◌ c) f.bytes;
    data_ = ap (◌∷◌ c) f.data_;
    acts = f.acts;
    absent = (w.0, f.absent);
    first_well = f.first_well;
    rest_well = f.rest_well;
  })
]

pub body-length : (k : Command) → 1 ≤ length (body k)
body-length escaped = omega arith
body-length (proposal optcode option) = omega arith
body-length (suboption code content) = omega arith
body-length (short c) = omega arith

-- Fewer than two bytes are no command.
pub Plain-short : (items : List Item) → AreItems items → length (encoded items) ≤ 1 → Plain items
Plain-short items w l = elim (next_item items w) [
  | inl p ↦ p
  | inr f ↦ absurd (
      omega (
        arith,
        ap length f.bytes,
        length-append f.before (iac ∷ (body f.at ++ encoded f.behind)),
        length-append (body f.at) (encoded f.behind),
        body-length f.at,
      ))
]
