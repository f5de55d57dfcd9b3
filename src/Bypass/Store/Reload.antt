-- ===== src/Bypass/Store/Reload.antt =====
-- internal/bypass/store.go: a restart finds the rules that were saved.
use outline_gate.Prelude.{◌≡◌, refl, false, List, Option, some, none, All}
use outline_gate.Prelude.Result.{ok, err}
use outline_gate.Go.Text.{is_empty}
use outline_gate.Go.Unicode.{Unicode}
use outline_gate.Bypass.Rule.{Rule}
use outline_gate.Bypass.Rule.Canonical.{IsCanonical}
use outline_gate.Bypass.RulesFile.{render_file, DistinctRaws}
use outline_gate.Bypass.RulesFile.RoundTrip.{parse_rules_file-render_file}
use outline_gate.Bypass.Disk.{Disk, Faults, DiskError, persist_text}
use outline_gate.Bypass.Store.{Store, Outcome, new_store, persist, commit, commit_with, load}
use outline_gate.Bypass.Store.Atomic.{Settles, persist_text-Settles}

-- What a call that saves rules leaves: with no error, the rules, and a file from which a new store loads
-- them; with an error, the store and the file as they were.
abbrev pub Saved : {A : Type 0} → Unicode → Faults → List Rule → Store → Disk → Outcome A → Type 0
Saved u g rs s d (s', d', ok a) =
    (s' ≡ record s { rules = rs }) × (load u g (new_store s.path) d' ≡ (s', d', ok tt))
Saved u g rs s d (s', d', err e) = (s' ≡ s) × (d'.file ≡ d.file)

load-file :
    (u : Unicode) (g : Faults) (rs : List Rule) (s : Store) (d : Disk)
    → is_empty s.path ≡ false
    → g.read_fails ≡ false
    → All (IsCanonical u) rs
    → DistinctRaws rs
    → d.file ≡ some (render_file rs)
    → load u g (new_store s.path) d ≡ (record s { rules = rs }, d, ok tt)
unfolding load
load-file u g rs s d p r k n e = simp (p, r, e, parse_rules_file-render_file u rs k n)

-- `Set`, `Add` and `Remove` end so, for a store with a path: rules in canonical form with distinct texts
-- are saved, and a store that is opened on that path loads the same rules, or an error leaves the store
-- and the file as they were.
pub commit-Saved :
    {A : Type 0} (u : Unicode) (f g : Faults) (rs : List Rule) (a : A) (s : Store) (d : Disk)
    → is_empty s.path ≡ false
    → g.read_fails ≡ false
    → All (IsCanonical u) rs
    → DistinctRaws rs
    → Saved u g rs s d (commit f rs a s d)
unfolding persist
commit-Saved u f g rs a s d p r k n =
    rw p (go (persist_text f (render_file rs) d) (persist_text-Settles f (render_file rs) d))
  where
    go :
        (w : Disk × Option DiskError)
        → Settles (render_file rs) d w
        → Saved u g rs s d (commit_with rs a s w)
    go (d', none) h = (refl, load-file u g rs s d' p r k n h.0)
    go (d', some e) h = (refl, h)
