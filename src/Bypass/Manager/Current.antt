-- ===== src/Bypass/Manager/Current.antt =====
-- internal/bypass/manager.go: calls on one manager, each of which ends before the next begins; the matcher
-- follows the rules.
use outline_gate.Prelude.{◌≡◌, refl, sym, ap, ◌∙◌, Bool, true, false, List, [], ◌∷◌, if-both}
use outline_gate.Prelude.Result.{Result, ok, err}
use outline_gate.Go.Text.{Text}
use outline_gate.Go.Unicode.{Unicode}
use outline_gate.Go.Ip.{IpNet}
use outline_gate.Bypass.Rule.{Rule, RuleError}
use outline_gate.Bypass.Disk.{Disk, Faults}
use outline_gate.Bypass.Store.{Outcome, bad_rule, set_rules}
use outline_gate.Bypass.Store.Kept.{
  Keeps, Spares, add-Keeps, remove-Spares, set_rules-Keeps, load-Keeps,
}
use outline_gate.Bypass.Manager.{
  Manager, Lookup, Done, refresh, same_nets, notify, set_static, load_manager, add_rule,
  remove_rule, replace_rules, parse_rules, store_error, after_change, after_add, after_remove,
}

-- The calls of one manager, each with what the resolver answers during it.
pub data Call (E : Type 0) : Type 0 where
  refreshes : Lookup E → Call E
  loads : Faults → Lookup E → Call E
  adds : Faults → Lookup E → Text → Call E
  removes : Faults → Lookup E → Text → Call E
  replaces : Faults → Lookup E → List Text → Call E
  sets_static : List IpNet → Call E

module _ {E : Type 0} where
  abbrev pub left : {A : Type 0} → Done E A → Manager E × Disk
  left (m, d, r) = (m, d)

  unfoldable pub step : Unicode → Manager E × Disk → Call E → Manager E × Disk
  step u (m, d) (refreshes lookup) = ((refresh lookup m).0, d)
  step u (m, d) (loads f lookup) = left (load_manager u f lookup m d)
  step u (m, d) (adds f lookup raw) = left (add_rule u f lookup raw m d)
  step u (m, d) (removes f lookup raw) = left (remove_rule u f lookup raw m d)
  step u (m, d) (replaces f lookup raws) = left (replace_rules u f lookup raws m d)
  step u (m, d) (sets_static nets) = (set_static nets m, d)

  unfoldable pub run : Unicode → Manager E × Disk → List (Call E) → Manager E × Disk
  run u w [] = w
  run u w (c ∷ cs) = run u (step u w c) cs

  -- The matcher is that of the rules in the store.
  abbrev pub IsCurrent : Manager E → Type 0
  IsCurrent m = m.matcher ≡ m.store.rules

  notify-IsCurrent : (m : Manager E) → IsCurrent m → IsCurrent (notify m)
  notify-IsCurrent m h = if-both IsCurrent m.hooked _ m h h

  refresh-IsCurrent :
      (lookup : Lookup E) (m : Manager E) → IsCurrent m → IsCurrent (refresh lookup m).0
  unfolding refresh
  refresh-IsCurrent lookup m h =
      if-both IsCurrent (same_nets m.resolved _) _ _ h (notify-IsCurrent _ h)

  after_change-IsCurrent :
      (lookup : Lookup E) (m : Manager E) (o : Outcome (Unit {0}))
      → Keeps m.store o
      → IsCurrent m
      → IsCurrent (after_change lookup m o).0
  after_change-IsCurrent lookup m (s, d, err e) k h = h ∙ ap (λ s. s.rules) (sym k)
  after_change-IsCurrent lookup m (s, d, ok x) k h = refresh-IsCurrent lookup _ refl

  after_add-IsCurrent :
      (lookup : Lookup E) (m : Manager E) (o : Outcome Rule)
      → Keeps m.store o
      → IsCurrent m
      → IsCurrent (after_add lookup m o).0
  after_add-IsCurrent lookup m (s, d, err e) k h = h ∙ ap (λ s. s.rules) (sym k)
  after_add-IsCurrent lookup m (s, d, ok x) k h = refresh-IsCurrent lookup _ refl

  after_remove-IsCurrent :
      (lookup : Lookup E) (m : Manager E) (o : Outcome Bool)
      → Spares m.store o
      → IsCurrent m
      → IsCurrent (after_remove lookup m o).0
  after_remove-IsCurrent lookup m (s, d, err e) k h = h ∙ ap (λ s. s.rules) (sym k)
  after_remove-IsCurrent lookup m (s, d, ok false) k h = h ∙ ap (λ s. s.rules) (sym k)
  after_remove-IsCurrent lookup m (s, d, ok true) k h = refresh-IsCurrent lookup _ refl

  replace_rules-IsCurrent :
      (u : Unicode) (f : Faults) (lookup : Lookup E) (raws : List Text) (m : Manager E) (d : Disk)
      → IsCurrent m
      → IsCurrent (replace_rules u f lookup raws m d).0
  unfolding replace_rules
  replace_rules-IsCurrent u f lookup raws m d h = parsed (parse_rules u raws)
    where
      parsed :
          (p : Result RuleError (List Rule))
          → IsCurrent
              (elim p as (λ p. Done E (Unit {0})) [
                | err e ↦ (m, d, err (store_error (bad_rule e)))
                | ok rules ↦ after_change lookup m (set_rules u f rules m.store d)
              ]).0
      parsed (err e) = h
      parsed (ok rules) =
          after_change-IsCurrent lookup m (set_rules u f rules m.store d)
            (set_rules-Keeps u f rules m.store d) h

  step-IsCurrent :
      (u : Unicode) (m : Manager E) (d : Disk) (c : Call E)
      → IsCurrent m
      → IsCurrent (step u (m, d) c).0
  unfolding step load_manager add_rule remove_rule
  step-IsCurrent u m d (refreshes lookup) h = refresh-IsCurrent lookup m h
  step-IsCurrent u m d (loads f lookup) h =
      after_change-IsCurrent lookup m _ (load-Keeps u f m.store d) h
  step-IsCurrent u m d (adds f lookup raw) h =
      after_add-IsCurrent lookup m _ (add-Keeps u f raw m.store d) h
  step-IsCurrent u m d (removes f lookup raw) h =
      after_remove-IsCurrent lookup m _ (remove-Spares u f raw m.store d) h
  step-IsCurrent u m d (replaces f lookup raws) h = replace_rules-IsCurrent u f lookup raws m d h
  step-IsCurrent u m d (sets_static nets) h = notify-IsCurrent (record m { static = nets }) h

  -- Whatever is called, each call after the end of the one before, and whatever fails on disk or in the
  -- resolver: a manager whose matcher is that of its rules stays one. Nothing is said of calls that overlap.
  pub run-IsCurrent :
      (u : Unicode) (m : Manager E) (d : Disk) (cs : List (Call E))
      → IsCurrent m
      → IsCurrent (run u (m, d) cs).0
  unfolding run
  run-IsCurrent u m d [] h = h
  run-IsCurrent u m d (c ∷ cs) h =
      let w = step u (m, d) c in run-IsCurrent u w.0 w.1 cs (step-IsCurrent u m d c h)
