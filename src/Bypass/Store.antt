-- ===== src/Bypass/Store.antt =====
-- internal/bypass/store.go: the rules in memory and on disk. Its mutex makes every method atomic. A
-- method takes the faults of its disk calls, the store and the disk, and gives both back.
pub mod Session
pub mod Loops
pub mod Distinct
pub mod Atomic
pub mod Reload
pub mod Kept
use outline_gate.Prelude.{
  ℕ, Bool, true, false, not, List, [], ◌∷◌, ◌++◌, Option, some, none, if◌then◌else◌,
}
use outline_gate.Prelude.Result.{Result, ok, err, ◌>>=◌}
use outline_gate.Go.Text.{Text, text_eq, is_empty}
use outline_gate.Go.Unicode.{Unicode}
use outline_gate.Bypass.Rule.{Rule, RuleError, parse_rule}
use outline_gate.Bypass.RulesFile.{
  FileError, Scan, keep_rule, empty_scan, parse_rules_file, render_file,
}
use outline_gate.Bypass.Disk.{Disk, Faults, DiskError, read_file, persist_text}

pub record Store : Type 0 where
  pub path : Text
  pub rules : List Rule

pub data StoreError : Type 0 where
  bad_rule : RuleError → StoreError
  bad_file : FileError → StoreError
  disk_error : DiskError → StoreError

-- `NewStore`.
abbrev pub new_store : Text → Store
new_store path = record { path = path; rules = [] }

-- What every method leaves: the store, the disk and the result.
abbrev pub Outcome : Type 0 → Type 0
Outcome A = Store × Disk × Result StoreError A

-- `persistLocked`.
unfoldable pub persist : Faults → List Rule → Store → Disk → Disk × Option DiskError
persist f rules s d = if is_empty s.path then (d, none) else persist_text f (render_file rules) d

-- The end of `Set`, `Add` and `Remove`: the rules are taken over once they are on disk.
abbrev pub commit_with : {A : Type 0} → List Rule → A → Store → Disk × Option DiskError → Outcome A
commit_with rules a s (d, some e) = (s, d, err (disk_error e))
commit_with rules a s (d, none) = (record s { rules = rules }, d, ok a)

abbrev pub commit : {A : Type 0} → Faults → List Rule → A → Store → Disk → Outcome A
commit f rules a s d = commit_with rules a s (persist f rules s d)

-- `Load`: a missing file is an empty list, and an error keeps the rules.
unfoldable pub load : Unicode → Faults → Store → Disk → Outcome (Unit {0})
load u f s d =
    if is_empty s.path
    then (record s { rules = [] }, d, ok tt)
    else if f.read_fails
    then (s, d, err (disk_error read_file))
    else elim d.file [
      | none ↦ (record s { rules = [] }, d, ok tt)
      | some text ↦ elim (parse_rules_file u text) [
        | err e ↦ (s, d, err (bad_file e))
        | ok rules ↦ (record s { rules = rules }, d, ok tt)
      ]
    ]

-- The loop of `Set`.
unfoldable pub scan_rules : Unicode → List Rule → Scan → Result RuleError Scan
scan_rules u [] c = ok c
scan_rules u (r ∷ rs) c = do p ← parse_rule u r.raw; scan_rules u rs (keep_rule p c)

-- `Set`.
unfoldable pub set_rules : Unicode → Faults → List Rule → Store → Disk → Outcome (Unit {0})
set_rules u f rules s d = elim (scan_rules u rules empty_scan) [
  | err e ↦ (s, d, err (bad_rule e))
  | ok c ↦ commit f c.rules tt s d
]

-- The loop of `Add`: the first rule with this text.
unfoldable pub find_raw : Text → List Rule → Option Rule
find_raw t [] = none
find_raw t (r ∷ rs) = if text_eq r.raw t then some r else find_raw t rs

-- `Add`.
unfoldable pub add : Unicode → Faults → Text → Store → Disk → Outcome Rule
add u f text s d = elim (parse_rule u text) [
  | err e ↦ (s, d, err (bad_rule e))
  | ok r ↦ elim (find_raw r.raw s.rules) [
    | some existing ↦ (s, d, ok existing)
    | none ↦ commit f (s.rules ++ r ∷ []) r s d
  ]
]

-- The loop of `Remove`: the rules with another text.
unfoldable pub without_raw : Text → List Rule → List Rule
without_raw t [] = []
without_raw t (r ∷ rs) = if text_eq r.raw t then without_raw t rs else r ∷ without_raw t rs

abbrev pub has_raw : Text → List Rule → Bool
has_raw t rs = elim (find_raw t rs) [ none ↦ false | some r ↦ true ]

-- `Remove`.
unfoldable pub remove : Unicode → Faults → Text → Store → Disk → Outcome Bool
remove u f text s d = elim (parse_rule u text) [
  | err e ↦ (s, d, err (bad_rule e))
  | ok r ↦
      if not (has_raw r.raw s.rules)
      then (s, d, ok false)
      else commit f (without_raw r.raw s.rules) true s d
]
