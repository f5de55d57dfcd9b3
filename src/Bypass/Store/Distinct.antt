-- ===== src/Bypass/Store/Distinct.antt =====
-- internal/bypass/store.go: no two rules of a store have the same text.
use outline_gate.Prelude.{
  ◌≡◌, refl, inl, inr, Bool, true, false, not, List, [], ◌∷◌, ◌++◌, Option, some, none, Bool-cases,
  if◌then◌else◌,
}
use outline_gate.Prelude.Result.{Result, ok, err}
use outline_gate.Go.Text.{Text, is_empty}
use outline_gate.Go.Unicode.{Unicode}
use outline_gate.Bypass.Rule.{Rule, RuleError, parse_rule}
use outline_gate.Bypass.RulesFile.{Scan, FileError, empty_scan, parse_rules_file, DistinctRaws}
use outline_gate.Bypass.Disk.{Disk, DiskError, Faults}
use outline_gate.Bypass.Store.{
  Store, bad_rule, bad_file, commit, has_raw, commit_with, persist, load, scan_rules, set_rules,
  find_raw, add, without_raw, remove,
}
use outline_gate.Bypass.Store.Loops.{
  DistinctRaws-append, Scanned, empty_scan-IsScan, scan_rules-IsScan, Reads,
  parse_rules_file-DistinctRaws, find_raw-none, without_raw-DistinctRaws,
}
use outline_gate.Bypass.Store.Session.{Call, loads, sets, adds, removes, left, step, run}

-- What a call does: it leaves all as it was, takes over a list that it read from the file, or saves a
-- list; a list that it takes over has no two rules with the same text.
pub data Move (s : Store) (d : Disk) (w : Store × Disk) : Type 0 where
  stay : w ≡ (s, d) → Move s d w
  reload : (rs : List Rule) → DistinctRaws rs → w ≡ (record s { rules = rs }, d) → Move s d w
  save :
      (f : Faults) (rs : List Rule) → DistinctRaws rs → w ≡ left (commit f rs tt s d) → Move s d w

left-commit_with :
    {A : Type 0} (rules : List Rule) (a : A) (s : Store) (p : Disk × Option DiskError)
    → left (commit_with rules a s p) ≡ left (commit_with rules tt s p)
left-commit_with rules a s (d, some e) = refl
left-commit_with rules a s (d, none) = refl

save-Move :
    {A : Type 0} (f : Faults) (rules : List Rule) (a : A) (s : Store) (d : Disk)
    → DistinctRaws rules
    → Move s d (left (commit f rules a s d))
save-Move f rules a s d k = save f rules k (left-commit_with rules a s (persist f rules s d))

load-Move : (u : Unicode) (f : Faults) (s : Store) (d : Disk) → Move s d (left (load u f s d))
unfolding load
load-Move u f s d = elim (Bool-cases (is_empty s.path)) [
  | inl memory ↦ rw memory (reload [] tt refl)
  | inr file ↦ rw file (elim (Bool-cases f.read_fails) [
    | inl fails ↦ rw fails (stay refl)
    | inr reads ↦ rw reads (of_file d.file)
  ])
]
  where
    of_text :
        (p : Result FileError (List Rule))
        → Reads p
        → Move s d (
            left {A = Unit {0}} (elim p [
              | err e ↦ (s, d, err (bad_file e))
              | ok rules ↦ (record s { rules = rules }, d, ok tt)
            ]))
    of_text (ok rs) k = reload rs k refl
    of_text (err e) k = stay refl

    of_file :
        (o : Option Text)
        → Move s d (
            left {A = Unit {0}} (elim o [
              | none ↦ (record s { rules = [] }, d, ok tt)
              | some text ↦ elim (parse_rules_file u text) [
                | err e ↦ (s, d, err (bad_file e))
                | ok rules ↦ (record s { rules = rules }, d, ok tt)
              ]
            ]))
    of_file none = reload [] tt refl
    of_file (some text) = of_text (parse_rules_file u text) (parse_rules_file-DistinctRaws u text)

set_rules-Move :
    (u : Unicode) (f : Faults) (rs : List Rule) (s : Store) (d : Disk)
    → Move s d (left (set_rules u f rs s d))
unfolding set_rules
set_rules-Move u f rs s d =
    go (scan_rules u rs empty_scan) (scan_rules-IsScan u rs empty_scan empty_scan-IsScan)
  where
    go :
        (m : Result RuleError Scan)
        → Scanned m
        → Move s d (
            left {A = Unit {0}}
              (elim m [ err e ↦ (s, d, err (bad_rule e)) | ok c ↦ commit f c.rules tt s d ]))
    go (ok c) v = save-Move f c.rules tt s d v.distinct
    go (err e) v = stay refl

add-Move :
    (u : Unicode) (f : Faults) (text : Text) (s : Store) (d : Disk)
    → DistinctRaws s.rules
    → Move s d (left (add u f text s d))
unfolding add
add-Move u f text s d h = go (parse_rule u text)
  where
    stored :
        (r : Rule) (o : Option Rule)
        → find_raw r.raw s.rules ≡ o
        → Move s d (
            left {A = Rule} (elim o [
              | some existing ↦ (s, d, ok existing)
              | none ↦ commit f (s.rules ++ r ∷ []) r s d
            ]))
    stored r (some existing) e = stay refl
    stored r none e =
        save-Move f (s.rules ++ r ∷ []) r s d
          (DistinctRaws-append s.rules r h (find_raw-none r.raw s.rules e))

    go :
        (m : Result RuleError Rule)
        → Move s d (
            left {A = Rule} (elim m [
              | err e ↦ (s, d, err (bad_rule e))
              | ok r ↦ elim (find_raw r.raw s.rules) [
                | some existing ↦ (s, d, ok existing)
                | none ↦ commit f (s.rules ++ r ∷ []) r s d
              ]
            ]))
    go (ok r) = stored r (find_raw r.raw s.rules) refl
    go (err e) = stay refl

remove-Move :
    (u : Unicode) (f : Faults) (text : Text) (s : Store) (d : Disk)
    → DistinctRaws s.rules
    → Move s d (left (remove u f text s d))
unfolding remove
remove-Move u f text s d h = go (parse_rule u text)
  where
    found :
        (r : Rule) (b : Bool)
        → Move s d (
            left {A = Bool}
              (if b then (s, d, ok false) else commit f (without_raw r.raw s.rules) true s d))
    found r true = stay refl
    found r false =
        save-Move f (without_raw r.raw s.rules) true s d (without_raw-DistinctRaws r.raw s.rules h)

    go :
        (m : Result RuleError Rule)
        → Move s d (
            left {A = Bool} (elim m [
              | err e ↦ (s, d, err (bad_rule e))
              | ok r ↦
                  if not (has_raw r.raw s.rules)
                  then (s, d, ok false)
                  else commit f (without_raw r.raw s.rules) true s d
            ]))
    go (ok r) = found r (not (has_raw r.raw s.rules))
    go (err e) = stay refl

-- A call on a store whose rules have distinct texts leaves all as it was, takes over a list read from the
-- file, or saves a list and takes it over if that succeeds; such a list has distinct texts.
pub step-Move :
    (u : Unicode) (s : Store) (d : Disk) (c : Call)
    → DistinctRaws s.rules
    → Move s d (step u (s, d) c)
unfolding step
step-Move u s d (loads f) h = load-Move u f s d
step-Move u s d (sets f rules) h = set_rules-Move u f rules s d
step-Move u s d (adds f text) h = add-Move u f text s d h
step-Move u s d (removes f text) h = remove-Move u f text s d h

commit_with-DistinctRaws :
    (rules : List Rule) (s : Store) (p : Disk × Option DiskError)
    → DistinctRaws s.rules
    → DistinctRaws rules
    → DistinctRaws (left (commit_with rules tt s p)).0.rules
commit_with-DistinctRaws rules s (d, some e) h k = h
commit_with-DistinctRaws rules s (d, none) h k = k

pub Move-DistinctRaws :
    (s : Store) (d : Disk) (w : Store × Disk)
    → DistinctRaws s.rules
    → Move s d w
    → DistinctRaws w.0.rules
Move-DistinctRaws s d w h (stay e) = rw e h
Move-DistinctRaws s d w h (reload rs k e) = rw e k
Move-DistinctRaws s d w h (save f rs k e) =
    rw e (commit_with-DistinctRaws rs s (persist f rs s d) h k)

-- From a store whose rules have distinct texts, any calls, whatever fails on disk, leave such a store.
pub run-DistinctRaws :
    (u : Unicode) (s : Store) (d : Disk) (cs : List Call)
    → DistinctRaws s.rules
    → DistinctRaws (run u (s, d) cs).0.rules
unfolding run
run-DistinctRaws u s d [] h = h
run-DistinctRaws u s d (c ∷ cs) h =
    let w = step u (s, d) c in
    run-DistinctRaws u w.0 w.1 cs (Move-DistinctRaws s d w h (step-Move u s d c h))
