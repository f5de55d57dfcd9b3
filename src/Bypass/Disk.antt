-- ===== src/Bypass/Disk.antt =====
-- internal/bypass/store.go: the file system as `persistLocked` uses it, for one rules file and its
-- temporary file. Package os is not part of the repository: which of its calls fail is an argument, and
-- a call that fails has no effect, but for a write, which may leave any part of the text. `past` records
-- what the rules file held after each call, and so at each point where the process may stop.
use outline_gate.Prelude.{ℕ, Bool, List, [], ◌∷◌, ◌++◌, Option, some, none, if◌then◌else◌, take}
use outline_gate.Go.Text.{Text}

pub record Disk : Type 0 where
  pub file : Option Text
  pub temp : Option Text
  pub past : List (Option Text)

-- The calls that fail, and how much of the text a failing write leaves.
pub record Faults : Type 0 where
  pub mkdir_fails : Bool
  pub open_fails : Bool
  pub write_fails : Bool
  pub written : ℕ
  pub sync_fails : Bool
  pub close_fails : Bool
  pub rename_fails : Bool
  pub read_fails : Bool

-- The errors of `persistLocked`, and of reading the file.
pub data DiskError : Type 0 where
  mkdir open_temp write_temp sync_temp close_temp rename_temp read_file : DiskError

abbrev seen : Disk → Disk
seen d = record d { past = d.past ++ d.file ∷ [] }

-- `os.OpenFile` on the temporary file, which empties it.
abbrev pub open_call : Disk → Disk
open_call d = seen (record d { temp = some [] })

abbrev pub write_call : Text → Disk → Disk
write_call text d = seen (record d { temp = some text })

-- `Sync`, `Close` and `MkdirAll` change neither file.
abbrev pub other_call : Disk → Disk
other_call d = seen d

-- `os.Rename` of the temporary file onto the rules file.
abbrev pub rename_call : Disk → Disk
rename_call d = seen (record d { file = d.temp; temp = none })

-- `os.Remove` of the temporary file.
abbrev pub remove_call : Disk → Disk
remove_call d = seen (record d { temp = none })

-- `persistLocked` from `MkdirAll` on.
unfoldable pub persist_text : Faults → Text → Disk → Disk × Option DiskError
persist_text f text d =
    if f.mkdir_fails
    then (d, some mkdir)
    else let made = other_call d in
      if f.open_fails
      then (made, some open_temp)
      else let opened = open_call made in
        if f.write_fails
        then (remove_call (other_call (write_call (take f.written text) opened)), some write_temp)
        else let full = write_call text opened in
          if f.sync_fails
          then (remove_call (other_call full), some sync_temp)
          else let synced = other_call full in
            if f.close_fails
            then (remove_call synced, some close_temp)
            else let closed = other_call synced in
              if f.rename_fails
              then (remove_call closed, some rename_temp)
              else (rename_call closed, none)
