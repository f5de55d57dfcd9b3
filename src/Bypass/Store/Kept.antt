-- ===== src/Bypass/Store/Kept.antt =====
-- internal/bypass/store.go: a call that fails keeps the rules in memory.
use outline_gate.Prelude.{
  ◌≡◌, refl, Bool, true, false, not, List, [], ◌∷◌, ◌++◌, Option, some, none, if-both,
  if◌then◌else◌,
}
use outline_gate.Prelude.Result.{Result, ok, err}
use outline_gate.Go.Text.{Text, is_empty}
use outline_gate.Go.Unicode.{Unicode}
use outline_gate.Bypass.Rule.{Rule, RuleError, parse_rule}
use outline_gate.Bypass.RulesFile.{parse_rules_file, Scan, empty_scan, FileError}
use outline_gate.Bypass.Disk.{Disk, Faults, DiskError}
use outline_gate.Bypass.Store.{
  Store, Outcome, bad_rule, bad_file, persist, commit, commit_with, load, add, remove, set_rules,
  find_raw, has_raw, without_raw, scan_rules,
}

-- A store method that fails, or that finds nothing to remove, keeps the store.
abbrev pub Keeps : {A : Type 0} → Store → Outcome A → Type 0
Keeps s (s', d, ok a) = Unit {0}
Keeps s (s', d, err e) = s' ≡ s

abbrev pub Spares : Store → Outcome Bool → Type 0
Spares s (s', d, ok true) = Unit {0}
Spares s (s', d, ok false) = s' ≡ s
Spares s (s', d, err e) = s' ≡ s

commit_with-Keeps :
    {A : Type 0} (rs : List Rule) (a : A) (s : Store) (w : Disk × Option DiskError)
    → Keeps s (commit_with rs a s w)
commit_with-Keeps rs a s (d, none) = tt
commit_with-Keeps rs a s (d, some e) = refl

commit_with-Spares :
    (rs : List Rule) (s : Store) (w : Disk × Option DiskError) → Spares s (commit_with rs true s w)
commit_with-Spares rs s (d, none) = tt
commit_with-Spares rs s (d, some e) = refl

pub add-Keeps :
    (u : Unicode) (f : Faults) (t : Text) (s : Store) (d : Disk) → Keeps s (add u f t s d)
unfolding add
add-Keeps u f t s d = parsed (parse_rule u t)
  where
    found :
        (r : Rule) (o : Option Rule)
        → Keeps s (elim o [ some x ↦ (s, d, ok x) | none ↦ commit f (s.rules ++ r ∷ []) r s d ])
    found r (some x) = tt
    found r none = commit_with-Keeps (s.rules ++ r ∷ []) r s (persist f (s.rules ++ r ∷ []) s d)

    parsed :
        (p : Result RuleError Rule)
        → Keeps s (elim p [
          | err e ↦ (s, d, err (bad_rule e))
          | ok r ↦ elim (find_raw r.raw s.rules) [
            | some x ↦ (s, d, ok x)
            | none ↦ commit f (s.rules ++ r ∷ []) r s d
          ]
        ])
    parsed (err e) = refl
    parsed (ok r) = found r (find_raw r.raw s.rules)

pub remove-Spares :
    (u : Unicode) (f : Faults) (t : Text) (s : Store) (d : Disk) → Spares s (remove u f t s d)
unfolding remove
remove-Spares u f t s d = parsed (parse_rule u t)
  where
    parsed :
        (p : Result RuleError Rule)
        → Spares s (elim p [
          | err e ↦ (s, d, err (bad_rule e))
          | ok r ↦
              if not (has_raw r.raw s.rules)
              then (s, d, ok false)
              else commit f (without_raw r.raw s.rules) true s d
        ])
    parsed (err e) = refl
    parsed (ok r) =
        if-both (Spares s) (not (has_raw r.raw s.rules)) _ _ refl
          (commit_with-Spares (without_raw r.raw s.rules) s _)

pub set_rules-Keeps :
    (u : Unicode) (f : Faults) (rs : List Rule) (s : Store) (d : Disk)
    → Keeps s (set_rules u f rs s d)
unfolding set_rules
set_rules-Keeps u f rs s d = scanned (scan_rules u rs empty_scan)
  where
    scanned :
        (p : Result RuleError Scan)
        → Keeps s (elim p [ err e ↦ (s, d, err (bad_rule e)) | ok c ↦ commit f c.rules tt s d ])
    scanned (err e) = refl
    scanned (ok c) = commit_with-Keeps c.rules tt s (persist f c.rules s d)

pub load-Keeps : (u : Unicode) (f : Faults) (s : Store) (d : Disk) → Keeps s (load u f s d)
unfolding load
load-Keeps u f s d =
    if-both (Keeps {A = Unit {0}} s) (is_empty s.path) _ _ tt
      (if-both (Keeps {A = Unit {0}} s) f.read_fails _ _ refl (opened d.file))
  where
    parsed :
        (p : Result FileError (List Rule))
        → Keeps {A = Unit {0}} s (elim p [
          | err e ↦ (s, d, err (bad_file e))
          | ok rules ↦ (record s { rules = rules }, d, ok tt)
        ])
    parsed (err e) = refl
    parsed (ok rules) = tt

    opened :
        (o : Option Text)
        → Keeps {A = Unit {0}} s (elim o [
          | none ↦ (record s { rules = [] }, d, ok tt)
          | some text ↦ elim (parse_rules_file u text) [
            | err e ↦ (s, d, err (bad_file e))
            | ok rules ↦ (record s { rules = rules }, d, ok tt)
          ]
        ])
    opened none = tt
    opened (some text) = parsed (parse_rules_file u text)
