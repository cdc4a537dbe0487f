-- ===== src/LockFile/Files.antt =====
-- The files that pidfile_handle.c names: a directory of paths and the contents of the files, so that
-- a link shares its file. What the system refuses is a parameter.
use serial_ip.Base.{
  ℕ, ◌+◌, ◌-◌, ◌*◌, ◌/◌, ◌%◌, Bool, true, false, Option, none, some, List, [], ◌∷◌, ◌++◌, ltb, ◌==◌,
  if◌then◌else◌, take, drop,
}
use serial_ip.Base.Integer.{ℤ, pos, negsuc}
use serial_ip.Base.Text.{Text, same_text}

pub record FileSystem : Type 0 where
  pub file_at : Text → Option ℕ  -- the file that a path names
  pub content : ℕ → List ℕ
  pub next : ℕ  -- the number of the next new file

-- What the system answers. A call may fail for reasons that the directory does not show.
pub record System : Type 0 where
  pub denies_open : Text → Bool
  pub denies_fstat : Text → Bool
  pub denies_link : ℕ → Bool  -- by the number of the attempt
  pub denies_unlink : Text → Bool
  pub accepts : Text → ℕ  -- bytes that a write takes
  pub delivers : Text → ℕ  -- bytes that a read gives
  pub is_alive : ℕ → Bool  -- `kill(pid, 0)` does not answer ESRCH
  pub decimal : ℕ → Text  -- `%d`

abbrev pub rename : (Text → Option ℕ) → Text → Option ℕ → Text → Option ℕ
rename f path v t = if same_text path t then v else f t

abbrev pub set_content : (ℕ → List ℕ) → ℕ → List ℕ → ℕ → List ℕ
set_content f i v j = if i == j then v else f j

-- What link(2) did.
pub data Linked : Type 0 where
  linked : FileSystem → Linked
  file_exists : Linked
  refused : Linked

abbrev pub link_to : Option ℕ → Option ℕ → Text → FileSystem → Linked
link_to none _ to fs = refused
link_to (some i) (some j) to fs = file_exists
link_to (some i) none to fs = linked (record fs { file_at = rename fs.file_at to (some i) })

unfoldable pub link : System → ℕ → Text → Text → FileSystem → Linked
link os attempt from to fs =
    if os.denies_link attempt then refused else link_to (fs.file_at from) (fs.file_at to) to fs

abbrev pub unlink_at : Option ℕ → Text → FileSystem → Bool × FileSystem
unlink_at none path fs = (false, fs)
unlink_at (some i) path fs = (true, record fs { file_at = rename fs.file_at path none })

-- The first component tells whether it succeeded.
unfoldable pub unlink : System → Text → FileSystem → Bool × FileSystem
unlink os path fs =
    if os.denies_unlink path then (false, fs) else unlink_at (fs.file_at path) path fs

-- `open` with O_CREAT, and O_TRUNC if `truncate`, for a file that is there and for a new one
abbrev pub open_at : Option ℕ → Bool → Text → FileSystem → ℕ × FileSystem
open_at (some i) true path fs = (i, record fs { content = set_content fs.content i [] })
open_at (some i) false path fs = (i, fs)
open_at none truncate path fs = (
  fs.next,
  record {
    file_at = rename fs.file_at path (some fs.next);
    content = set_content fs.content fs.next [];
    next = fs.next + 1;
  },
)

-- A write of `bytes`, of which `n` are taken, at the start of file `i`.
abbrev pub write_start : ℕ → ℕ → List ℕ → FileSystem → FileSystem
write_start i n bytes fs = record fs {
  content = set_content fs.content i (take n bytes ++ drop n (fs.content i));
}

-- `sizeof(pid_t)`
abbrev pub pid_size : ℕ
pid_size = 4

-- A `pid_t` in memory, lowest byte first, and back.
abbrev pub pid_bytes : ℕ → List ℕ
pid_bytes pid = pid % 256 ∷ pid / 256 % 256 ∷ pid / 65536 % 256 ∷ pid / 16777216 % 256 ∷ []

abbrev pub signed : ℕ → ℤ
signed v = if ltb v 2147483648 then pos v else negsuc (4294967295 - v)

abbrev pub pid_value : List ℕ → ℕ
pid_value [] = 0
pid_value (b ∷ bs) = b + 256 * pid_value bs
