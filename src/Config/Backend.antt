-- ===== src/Config/Backend.antt =====
-- internal/config/config.go: `PersistBackend`, on the disk of the rules file's model, and `RedactAccessKey`,
-- for a key in ASCII.
pub mod Redacted
use outline_gate.Prelude.{
  ℕ, ◌-◌, Bool, true, false, not, ◌&&◌, ◌||◌, List, [], ◌∷◌, ◌++◌, Option, some, none, leb, ◌==◌,
  if◌then◌else◌, length, take, drop,
}
use outline_gate.Go.Text.{Text, codes, text_eq, is_empty, trim_space, has_prefix}
use outline_gate.Go.Unicode.{Unicode, lower}
use outline_gate.Bypass.Disk.{
  Disk, Faults, DiskError, mkdir, open_temp, write_temp, close_temp, rename_temp, open_call,
  write_call, other_call, rename_call, remove_call,
}

pub data BackendError : Type 0 where
  no_path bad_backend : BackendError
  disk_failed : DiskError → BackendError

abbrev backend_content : Text → Text
backend_content b = codes "# outline-gate tunnel backend\n" ++ (b ++ codes "\n")

-- The writes: a temporary file that could not be written is left behind.
abbrev write_backend : Faults → Text → Disk → Disk × Option BackendError
write_backend f text d =
    if f.mkdir_fails
    then (d, some (disk_failed mkdir))
    else let opened = open_call (other_call d) in
      if f.open_fails
      then (other_call d, some (disk_failed open_temp))
      else if f.write_fails
      then (write_call (take f.written text) opened, some (disk_failed write_temp))
      else if f.close_fails
      then (write_call text opened, some (disk_failed close_temp))
      else if f.rename_fails
      then (remove_call (write_call text opened), some (disk_failed rename_temp))
      else (rename_call (write_call text opened), none)

-- `PersistBackend`.
unfoldable pub persist_backend : Unicode → Faults → Text → Text → Disk → Disk × Option BackendError
persist_backend u f path backend d =
    let b = lower u (trim_space backend) in
    if is_empty (trim_space path)
    then (d, some no_path)
    else if not (text_eq b (codes "outline")) && not (text_eq b (codes "amnezia"))
    then (d, some bad_backend)
    else write_backend f (backend_content b) d

-- `strings.Index s "://"`, as the two parts.
abbrev scheme_mark : Text
scheme_mark = codes "://"

abbrev cons_part : ℕ → Option (Text × Text) → Option (Text × Text)
cons_part c none = none
cons_part c (some (a, b)) = some (c ∷ a, b)

unfoldable pub cut_scheme : Text → Option (Text × Text)
cut_scheme [] = none
cut_scheme (c ∷ s) =
    let rest = cut_scheme s in
    if has_prefix (c ∷ s) scheme_mark then some ([], drop 3 (c ∷ s)) else cons_part c rest

-- What stands behind the last "@".
abbrev or_after : Bool → Text → Option Text → Option Text
or_after is_at s (some t) = some t
or_after true s none = some s
or_after false s none = none

unfoldable pub after_last_at : Text → Option Text
after_last_at [] = none
after_last_at (c ∷ s) = or_after (c == b'@') s (after_last_at s)

abbrev stars : Text
stars = codes "***"

abbrev short_form : Text → Text
short_form key =
    if leb (length key) 8 then stars else take 4 key ++ (stars ++ drop (length key - 2) key)

abbrev hide_user : Text → Text → Option Text → Text
hide_user key scheme none = short_form key
hide_user key scheme (some rest) = scheme ++ (scheme_mark ++ (stars ++ (b'@' ∷ rest)))

abbrev redact_with : Text → Option (Text × Text) → Text
redact_with key none = short_form key
redact_with key (some w) = hide_user key w.0 (after_last_at w.1)

-- `RedactAccessKey`.
unfoldable pub redact_access_key : Text → Text
unfolding cut_scheme after_last_at
redact_access_key key = if is_empty key then [] else redact_with key (cut_scheme key)
