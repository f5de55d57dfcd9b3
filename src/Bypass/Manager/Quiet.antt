-- ===== src/Bypass/Manager/Quiet.antt =====
-- internal/bypass/manager.go: when the callback is called, and what it then sees.
use mathlib.Core.Path.{subst}
use outline_gate.Prelude.{
  sym, not, ◌≡◌, refl, ap, ◌∙◌, true, List, [], ◌∷◌, ◌++◌, Option, some, none, if◌then◌else◌, ◌&&◌,
  arith,
}
use outline_gate.Prelude.Result.{Result, ok, err}
use outline_gate.Go.Text.{Text}
use outline_gate.Go.Unicode.{Unicode}
use outline_gate.Go.Ip.{IpNet}
use outline_gate.Bypass.Rule.{Rule, RuleError, parse_rule}
use outline_gate.Bypass.Matcher.{domains_to_resolve, domains_onto, host_to_resolve}
use outline_gate.Bypass.Disk.{Disk, Faults, DiskError}
use outline_gate.Bypass.Store.{Store, Outcome, bad_rule, commit, commit_with, find_raw, add}
use outline_gate.Bypass.Manager.{
  Manager, Lookup, refresh, resolve_all, same_nets, effective_nets, rebuilt, rebuild_matcher,
  after_add, add_rule,
}

module _ {E : Type 0} (lookup : Lookup E) (m : Manager E) where
  -- The nets that the lookups of the names of the rules give.
  abbrev pub looked_up : List IpNet
  looked_up = (resolve_all lookup (domains_to_resolve m.store.rules) [] none).0

  -- `Refresh` takes over the nets of the lookups. If they are the same as before, as a multiset of texts,
  -- or there is no callback, it calls nothing; otherwise the callback sees the new effective nets.
  pub refresh-notices :
      ((refresh lookup m).0.resolved ≡ looked_up)
      × ((refresh lookup m).0.notices ≡ (
          if m.hooked && not (same_nets m.resolved looked_up)
          then m.notices ++ effective_nets (refresh lookup m).0 ∷ []
          else m.notices))
  unfolding refresh effective_nets
  refresh-notices = ground arith

-- A rule without a host adds no name to resolve.
domains_onto-append :
    (rs : List Rule) (out : List Text) (r : Rule)
    → host_to_resolve r ≡ []
    → domains_onto out (rs ++ r ∷ []) ≡ domains_onto out rs
unfolding domains_onto
domains_onto-append [] out r h = ground (arith, h)
domains_onto-append (x ∷ rs) out r h = domains_onto-append rs _ r h

-- The rest of `Add` for a parsed rule, behind its search.
abbrev add_found : Faults → Rule → Store → Disk → Option Rule → Outcome Rule
add_found f r s d (some x) = (s, d, ok x)
add_found f r s d none = commit f (s.rules ++ r ∷ []) r s d

add-found :
    (u : Unicode) (f : Faults) (raw : Text) (s : Store) (d : Disk) {r : Rule}
    → parse_rule u raw ≡ ok r
    → add u f raw s d ≡ add_found f r s d (find_raw r.raw s.rules)
unfolding add
add-found u f raw s d {r} e =
    subst (λ p. by_parse p ≡ add_found f r s d (find_raw r.raw s.rules)) (sym e)
      (by_search r (find_raw r.raw s.rules))
  where
    by_search :
        (q : Rule) (o : Option Rule)
        → elim o [ some x ↦ (s, d, ok x) | none ↦ commit f (s.rules ++ q ∷ []) q s d ]
          ≡ add_found f q s d o
    by_search q (some x) = refl
    by_search q none = refl

    by_parse : Result RuleError Rule → Outcome Rule
    by_parse p = elim p [
      | err e ↦ (s, d, err (bad_rule e))
      | ok q ↦ elim (find_raw q.raw s.rules) [
        | some x ↦ (s, d, ok x)
        | none ↦ commit f (s.rules ++ q ∷ []) q s d
      ]
    ]

module _ {E : Type 0} (lookup : Lookup E) (m : Manager E) where
  rebuilt-notices :
      (s : Store)
      → domains_to_resolve s.rules ≡ domains_to_resolve m.store.rules
      → same_nets m.resolved (looked_up lookup m) ≡ true
      → (rebuilt lookup s m).0.notices ≡ m.notices
  rebuilt-notices s names same =
      let n : Manager E = rebuild_matcher (record m { store = s }) in
      let nets : looked_up lookup n ≡ looked_up lookup m =
        ap (λ hs. (resolve_all lookup hs [] none).0) names in
      let still : same_nets m.resolved (looked_up lookup n) ≡ true =
        ap (same_nets m.resolved) nets ∙ same in
      (refresh-notices lookup n).1 ∙ ground (arith, still)

  after_commit-notices :
      (rs : List Rule) (r : Rule) (w : Disk × Option DiskError)
      → domains_to_resolve rs ≡ domains_to_resolve m.store.rules
      → same_nets m.resolved (looked_up lookup m) ≡ true
      → (after_add lookup m (commit_with rs r m.store w)).0.notices ≡ m.notices
  after_commit-notices rs r (d, some e) names same = refl
  after_commit-notices rs r (d, none) names same =
      rebuilt-notices (record m.store { rules = rs }) names same

  -- A rule without a host, so one for an address or a net, that `AddRule` adds while the names of the
  -- other rules resolve to the same nets as before: the callback is not called.
  pub add_rule-notices :
      (u : Unicode) (f : Faults) (raw : Text) (d : Disk) {r : Rule}
      → parse_rule u raw ≡ ok r
      → host_to_resolve r ≡ []
      → same_nets m.resolved (looked_up lookup m) ≡ true
      → (add_rule u f lookup raw m d).0.notices ≡ m.notices
  unfolding add_rule domains_to_resolve
  add_rule-notices u f raw d {r} parsed address same =
      ap (λ o. (after_add lookup m o).0.notices) (add-found u f raw m.store d parsed)
      ∙ by_place (find_raw r.raw m.store.rules)
    where
      by_place :
          (o : Option Rule) → (after_add lookup m (add_found f r m.store d o)).0.notices ≡ m.notices
      by_place (some x) = rebuilt-notices m.store refl same
      by_place none =
          after_commit-notices (m.store.rules ++ r ∷ []) r _
            (domains_onto-append m.store.rules [] r address) same
