-- ===== src/Bypass/Store/Atomic.antt =====
-- internal/bypass/store.go: the rules file is replaced as a whole. Whatever call of the file system fails,
-- and wherever the process stops, the file holds the old text or the new one.
use outline_gate.Prelude.{
  ◌≡◌, ◌⊎◌, inl, inr, refl, List, [], ◌∷◌, ◌++◌, Option, some, none, All, All-append, if-both, take,
}
use outline_gate.Go.Text.{Text, is_empty}
use outline_gate.Go.Unicode.{Unicode}
use outline_gate.Bypass.Rule.{Rule}
use outline_gate.Bypass.RulesFile.{render_file}
use outline_gate.Bypass.Disk.{
  Disk, Faults, DiskError, persist_text, open_call, write_call, other_call, remove_call,
}
use outline_gate.Bypass.Store.{Store, persist, commit, commit_with}
use outline_gate.Bypass.Store.Session.{Call, left, step, run}
use outline_gate.Bypass.RulesFile.{DistinctRaws}
use outline_gate.Bypass.Store.Distinct.{Move, stay, reload, save, step-Move, Move-DistinctRaws}

-- Every text that the rules file ever held, and holds now, satisfies `P`.
abbrev pub Held : (Option Text → Type 0) → Disk → Type 0
Held P d = All P d.past × P d.file

-- Each call but the rename keeps the file as it is.
seen-Held :
    (P : Option Text → Type 0) (past : List (Option Text)) (file temp : Option Text)
    → All P past
    → P file
    → Held P (record { file = file; temp = temp; past = past ++ file ∷ [] })
seen-Held P past file temp a h = (All-append P past (file ∷ []) a (h, tt), h)

module _ (P : Option Text → Type 0) (text : Text) (new : P (some text)) where
  quiet :
      (d : Disk) (temp : Option Text) → Held P d → Held P (other_call (record d { temp = temp }))
  quiet d temp h = seen-Held P d.past d.file temp h.0 h.1

  -- A failed write, the close and the removal behind it.
  failed :
      (part : Option Text) (d : Disk)
      → Held P d
      → Held P (remove_call (other_call (other_call (record d { temp = part }))))
  failed part d h =
      let wrote : Disk = other_call (record d { temp = part }) in
      quiet (other_call wrote) none (quiet wrote part (quiet d part h))

  persist_text-Held : (f : Faults) (d : Disk) → Held P d → Held P (persist_text f text d).0
  unfolding persist_text
  persist_text-Held f d h =
      let made = quiet d d.temp h in
      let opened = quiet (other_call d) (some []) made in
      let full = quiet (open_call (other_call d)) (some text) opened in
      let written : Disk = write_call text (open_call (other_call d)) in
      let synced = quiet written (some text) full in
      let closed = quiet (other_call written) (some text) synced in
      if-both Q f.mkdir_fails _ _ h (
        if-both Q f.open_fails _ _ made (
          if-both Q f.write_fails _ _
            (failed (some (take f.written text)) (open_call (other_call d)) opened)
            (if-both Q f.sync_fails _ _ (quiet (other_call written) none synced) (
              if-both Q f.close_fails _ _ (quiet (other_call written) none synced) (
                if-both Q f.rename_fails _ _ (quiet (other_call (other_call written)) none closed) (
                  seen-Held P (other_call (other_call written)).past (some text) none closed.0
                    new))))))
    where
      Q : Disk × Option DiskError → Type 0
      Q r = Held P r.0

-- The verdict of a run of `persistLocked`: the new text is the file, or the file is as it was.
abbrev pub Settles : Text → Disk → Disk × Option DiskError → Type 0
Settles text d (d', none) = (d'.file ≡ some text) × (d'.temp ≡ none)
Settles text d (d', some e) = d'.file ≡ d.file

pub persist_text-Settles :
    (f : Faults) (text : Text) (d : Disk) → Settles text d (persist_text f text d)
unfolding persist_text
persist_text-Settles f text d = if-both (Settles text d) f.mkdir_fails _ _ refl (
    if-both (Settles text d) f.open_fails _ _ refl (
      if-both (Settles text d) f.write_fails _ _ refl (
        if-both (Settles text d) f.sync_fails _ _ refl (
          if-both (Settles text d) f.close_fails _ _ refl
            (if-both (Settles text d) f.rename_fails _ _ refl (refl, refl))))))

-- Whatever call of the file system fails: `persistLocked` reports no error, and the file is the new text
-- with no temporary file left, or it reports an error, and the file is as it was. Each text that the file
-- held on the way, from an empty record of them, was the old one or the new one.
pub persist_text-atomic :
    (f : Faults) (text : Text) (d : Disk)
    → d.past ≡ []
    → Settles text d (persist_text f text d)
      × All (λ p. (p ≡ d.file) ⊎ (p ≡ some text)) (persist_text f text d).0.past
persist_text-atomic f text d e = (
  persist_text-Settles f text d,
  (persist_text-Held (λ p. (p ≡ d.file) ⊎ (p ≡ some text)) text (inr refl) f d
      (rw e tt, inl refl)).0,
)

-- The file is the one that the session began with, or a rendering of rules with distinct texts.
abbrev pub IsIntact : Option Text → Option Text → Type 0
IsIntact start p = (p ≡ start) ⊎ ((rs : List Rule) × (p ≡ some (render_file rs)) × DistinctRaws rs)

commit-Held :
    (start : Option Text) (f : Faults) (rs : List Rule) (s : Store) (d : Disk)
    → DistinctRaws rs
    → Held (IsIntact start) d
    → Held (IsIntact start) (left (commit f rs tt s d)).1
unfolding persist
commit-Held start f rs s d k h = go (persist f rs s d) (
    if-both (λ (r : Disk × Option DiskError). Held (IsIntact start) r.0) (is_empty s.path) _ _ h
      (persist_text-Held (IsIntact start) (render_file rs) (inr (rs, refl, k)) f d h))
  where
    go :
        (r : Disk × Option DiskError)
        → Held (IsIntact start) r.0
        → Held (IsIntact start) (left (commit_with rs tt s r)).1
    go (d', some e) v = v
    go (d', none) v = v

Move-Held :
    (start : Option Text) (s : Store) (d : Disk) (w : Store × Disk)
    → Move s d w
    → Held (IsIntact start) d
    → Held (IsIntact start) w.1
Move-Held start s d w (stay e) h = rw e h
Move-Held start s d w (reload rs k e) h = rw e h
Move-Held start s d w (save f rs k e) h = rw e (commit-Held start f rs s d k h)

run-Held :
    (u : Unicode) (start : Option Text) (s : Store) (d : Disk) (cs : List Call)
    → DistinctRaws s.rules
    → Held (IsIntact start) d
    → Held (IsIntact start) (run u (s, d) cs).1
unfolding run
run-Held u start s d [] k h = h
run-Held u start s d (c ∷ cs) k h =
    let w = step u (s, d) c in
    let m = step-Move u s d c k in
    run-Held u start w.0 w.1 cs (Move-DistinctRaws s d w k m) (Move-Held start s d w m h)

-- From a store with distinct rules, over any calls and any failures of the file system: at each point
-- where the process may stop, the rules file is the one that the session began with, or the complete
-- rendering of a list of rules with distinct texts.
pub run-IsIntact :
    (u : Unicode) (s : Store) (d : Disk) (cs : List Call)
    → DistinctRaws s.rules
    → d.past ≡ []
    → All (IsIntact d.file) (run u (s, d) cs).1.past
run-IsIntact u s d cs k e = (run-Held u d.file s d cs k (rw e tt, inl refl)).0
