-- ===== src/Bypass/Store/Session.antt =====
-- internal/bypass/store.go: any sequence of calls on one store, each with its own faults of the disk.
use outline_gate.Prelude.{List, [], ◌∷◌}
use outline_gate.Go.Text.{Text}
use outline_gate.Go.Unicode.{Unicode}
use outline_gate.Bypass.Rule.{Rule}
use outline_gate.Bypass.Disk.{Disk, Faults}
use outline_gate.Bypass.Store.{Store, Outcome, load, set_rules, add, remove}

pub data Call : Type 0 where
  loads : Faults → Call
  sets : Faults → List Rule → Call
  adds : Faults → Text → Call
  removes : Faults → Text → Call

-- The store and the disk that a method leaves, whatever its result.
abbrev pub left : {A : Type 0} → Outcome A → Store × Disk
left (s, d, r) = (s, d)

unfoldable pub step : Unicode → Store × Disk → Call → Store × Disk
step u (s, d) (loads f) = left (load u f s d)
step u (s, d) (sets f rules) = left (set_rules u f rules s d)
step u (s, d) (adds f text) = left (add u f text s d)
step u (s, d) (removes f text) = left (remove u f text s d)

unfoldable pub run : Unicode → Store × Disk → List Call → Store × Disk
run u w [] = w
run u w (c ∷ cs) = run u (step u w c) cs
