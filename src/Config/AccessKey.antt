-- ===== src/Config/AccessKey.antt =====
-- internal/config/key.go, internal/config/config.go: the access key, and the file in which it outlives a
-- restart. Writing that file makes the calls of `persistLocked` (Bypass.Disk) with the same cleaning up.
pub mod Restart
use outline_gate.Prelude.{
  ℕ, Bool, true, false, not, ◌&&◌, ◌||◌, List, [], ◌∷◌, ◌++◌, Option, some, none, if◌then◌else◌,
}
use outline_gate.Prelude.Result.{Result, ok, err}
use outline_gate.Go.Text.{Text, codes, is_empty, trim_space, has_prefix, has_part, contains, split}
use outline_gate.Go.Unicode.{Unicode, lower}
use outline_gate.Bypass.Disk.{Disk, Faults, DiskError, persist_text}

pub data KeyError : Type 0 where
  no_key many_tokens redacted no_scheme : KeyError

abbrev pub check_key : Unicode → Text → Option KeyError
check_key u key =
    let small = lower u key in
    if is_empty key
    then some no_key
    else if contains key b' ' || contains key b'\t' || contains key b'\r' || contains key b'\n'
    then some many_tokens
    else if has_part key (codes "***")
        || has_part small (codes "%2a%2a%2a")
        || has_part small (codes "ready:")
        || has_part small (codes "persist:")
    then some redacted
    else if not (has_prefix key (codes "ss://")) && not (has_prefix key (codes "ssconf://"))
    then some no_scheme
    else none

-- `ValidateAccessKey`; `none` is no error.
unfoldable pub validate_access_key : Unicode → Text → Option KeyError
validate_access_key u text = check_key u (trim_space text)

-- `firstNonCommentLine`.
unfoldable pub first_line : List Text → Text
first_line [] = []
first_line (l ∷ ls) =
    let rest = first_line ls in
    if is_empty (trim_space l) || has_prefix (trim_space l) (codes "#") then rest else trim_space l

abbrev pub first_non_comment_line : Text → Text
first_non_comment_line s = first_line (split b'\n' s)

pub data PersistError : Type 0 where
  empty_path : PersistError
  bad_key : KeyError → PersistError
  disk_error : DiskError → PersistError

abbrev pub key_content : Text → Text
key_content key =
    codes "# outline-gate runtime access key (managed by UI/API)" ++ (b'\n' ∷ (key ++ b'\n' ∷ []))

abbrev pub as_error : Disk × Option DiskError → Disk × Option PersistError
as_error (d, none) = (d, none)
as_error (d, some e) = (d, some (disk_error e))

abbrev pub write_key : Faults → Text → Disk → Option KeyError → Disk × Option PersistError
write_key f key d (some e) = (d, some (bad_key e))
write_key f key d none = as_error (persist_text f (key_content key) d)

-- `PersistAccessKey`.
unfoldable pub persist_access_key :
    Unicode → Faults → Text → Text → Disk → Disk × Option PersistError
persist_access_key u f path key d =
    if is_empty (trim_space path)
    then (d, some empty_path)
    else write_key f (trim_space key) d (validate_access_key u (trim_space key))

-- `ReadPersistedKey`; a file that cannot be read is `none`.
unfoldable pub read_persisted : (Text → Option Text) → Text → Text
read_persisted read path =
    if is_empty (trim_space path)
    then []
    else elim (read (trim_space path)) [ none ↦ [] | some s ↦ first_non_comment_line s ]

pub data LoadError : Type 0 where
  no_access_key no_key_file empty_key_file : LoadError

-- The key or the error, and whether a persisted key that is not valid is moved away.
pub record KeyLoad : Type 0 where
  pub moved : Bool
  pub key : Result LoadError Text

-- The environment, and the files.
abbrev pub from_file : Option Text → Result LoadError Text
from_file none = err no_key_file
from_file (some s) =
    if is_empty (first_non_comment_line s)
    then err empty_key_file
    else ok (first_non_comment_line s)

abbrev pub from_env : (Text → Text) → (Text → Option Text) → Result LoadError Text
from_env getenv read =
    let v = trim_space (getenv (codes "OUTLINE_ACCESS_KEY")) in
    let path = trim_space (getenv (codes "OUTLINE_ACCESS_KEY_FILE")) in
    if not (is_empty v)
    then ok v
    else if not (is_empty path)
    then from_file (read path)
    else err no_access_key

abbrev pub persist_path : (Text → Text) → Text
persist_path getenv =
    let p = trim_space (getenv (codes "OUTLINE_KEY_PERSIST_FILE")) in
    if is_empty p then codes "/config/outline_key.runtime.txt" else p

abbrev pub valid_or : Text → Option KeyError → Result LoadError Text → KeyLoad
valid_or key none other = record { moved = false; key = ok key }
valid_or key (some e) other = record { moved = true; key = other }

abbrev pub persisted_or : Unicode → Option Text → Result LoadError Text → KeyLoad
persisted_or u none other = record { moved = false; key = other }
persisted_or u (some s) other =
    let key = first_non_comment_line s in
    if is_empty key
    then record { moved = false; key = other }
    else valid_or key (validate_access_key u key) other

-- `loadAccessKey`. The file of the second way is another one than the persisted one, which may be moved.
unfoldable pub load_access_key : Unicode → (Text → Text) → (Text → Option Text) → KeyLoad
load_access_key u getenv read = persisted_or u (read (persist_path getenv)) (from_env getenv read)
