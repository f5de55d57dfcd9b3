-- ===== src/Amnezia/Client/Up/Swept.antt =====
-- internal/amnezia/client.go: what `Down` undoes in the system, read off the commands that were run.
use outline_gate.Prelude.{
  ◌≡◌, refl, sym, ap, Bool, true, false, not, ◌&&◌, List, [], ◌∷◌, ◌++◌, Option, some, none, All,
}
use mathlib.Core.Path.{subst}
use outline_gate.Prelude.Result.{Result, ok, err}
use outline_gate.Go.Text.{Text, codes, text_eq}
use outline_gate.Go.Ip.{IpAddr, IpNet}
use outline_gate.Amnezia.Conf.{Config, ConfError}
use outline_gate.Amnezia.Client.{
  Client, Host, State, Action, run, start, sig_term, sig_kill, act, down, drop_rule, rule_args,
  unpin, unpin_from, stop_if, stop_daemon, after_term, ignored, flush_args, del_link, iface,
  interface_addr,
}

abbrev second_word : List Text → Text
second_word (a ∷ b ∷ ws) = b
second_word _ = []

abbrev third_word : List Text → Text
third_word (a ∷ b ∷ c ∷ ws) = c
third_word _ = []

-- The actions that make or remove the interface, which the daemon makes when it starts; the rules; and the
-- routes, but for the removal of one route.
abbrev about_link : Action → Bool
about_link (run argv) = text_eq (second_word argv) (codes "link")
about_link (start argv) = true
about_link _ = false

abbrev about_rule : Action → Bool
about_rule (run argv) = text_eq (second_word argv) (codes "rule")
about_rule _ = false

abbrev about_routes : Action → Bool
about_routes (run argv) =
    text_eq (second_word argv) (codes "route") && not (text_eq (third_word argv) (codes "del"))
about_routes _ = false

-- An action was done, and none on the same matter came after it.
abbrev Last : (Action → Bool) → Action → List Action → Type 0
Last about a done =
    (newer : List Action) × (older : List Action) × (done ≡ newer ++ a ∷ older)
    × All (λ b. about b ≡ false) newer

abbrev link_args : Client → List Text
link_args c = codes "ip" ∷ codes "link" ∷ codes "del" ∷ codes "dev" ∷ iface c ∷ []

-- The rule is that of the interface's address; without one no rule is made.
abbrev RuleGone : Result ConfError (IpAddr × IpNet) → List Action → Type 0
RuleGone (err e) done = Unit
RuleGone (ok w) done = Last about_rule (run (codes "ip" ∷ rule_args (codes "del") w.0)) done

-- The removal of the interface, the flush of the policy table and the removal of the rule are the last
-- actions on the interface, on the routes and on the rules.
abbrev pub IsSwept : Client → List Action → Type 0
IsSwept c done =
    Last about_link (run (link_args c)) done
    × Last about_routes (run flush_args) done
    × RuleGone (interface_addr c.conf) done

Last-cons :
    (about : Action → Bool) (a b : Action) (done : List Action)
    → about b ≡ false
    → Last about a done
    → Last about a (b ∷ done)
Last-cons about a b done other (newer, older, e, h) = (b ∷ newer, older, ap (◌∷◌ b) e, (other, h))

RuleGone-cons :
    (r : Result ConfError (IpAddr × IpNet)) (b : Action) (done : List Action)
    → about_rule b ≡ false
    → RuleGone r done
    → RuleGone r (b ∷ done)
RuleGone-cons (err e) b done other g = tt
RuleGone-cons (ok w) b done other g = Last-cons about_rule _ b done other g

-- Between the flush and the removal of the interface.
record Stage (k : Config) (st : State) : Type 0 where
  conf : st.0.conf ≡ k
  routes : Last about_routes (run flush_args) st.1.done
  rule : RuleGone (interface_addr k) st.1.done

module _ (h : Host) (k : Config) where
  act-Stage :
      (a : Action) (st : State)
      → about_routes a ≡ false
      → about_rule a ≡ false
      → Stage k st
      → Stage k (act h a st)
  act-Stage a (c, m) r s g = record {
    conf = g.conf;
    routes = Last-cons about_routes _ a m.done r g.routes;
    rule = RuleGone-cons (interface_addr k) a m.done s g.rule;
  }

  unpin_from-Stage : (t : Text) (st : State) → Stage k st → Stage k (unpin_from h t st)
  unpin_from-Stage [] st g = g
  unpin_from-Stage (x ∷ t) st g =
      let s =
        act-Stage (run (codes "ip" ∷ codes "route" ∷ codes "del" ∷ (x ∷ t) ∷ [])) st refl refl g in
      record { conf = s.conf; routes = s.routes; rule = s.rule }

  after_term-Stage :
      (e : Option (Option Text)) (st : State) → Stage k st → Stage k (after_term h e st).0
  after_term-Stage none st g = act-Stage sig_kill st refl refl g
  after_term-Stage (some e) st g = g

  stop_if-Stage : (b : Bool) (st : State) → Stage k st → Stage k (stop_if h b st).0
  stop_if-Stage false st g = g
  stop_if-Stage true st g =
      let s =
        after_term-Stage (h.exits st.1.now) (act h sig_term st)
          (act-Stage sig_term st refl refl g) in
      record { conf = s.conf; routes = s.routes; rule = s.rule }

  del_link-IsSwept : (st : State) → Stage k st → IsSwept (del_link h st).0 (del_link h st).1.done
  del_link-IsSwept (c, m) g = (
    ([], m.done, refl, tt),
    Last-cons about_routes _ (run (link_args c)) m.done refl g.routes,
    subst (λ z. RuleGone (interface_addr z) (run (link_args c) ∷ m.done)) (sym g.conf)
        (RuleGone-cons (interface_addr k) (run (link_args c)) m.done refl g.rule),
  )

drop_rule-client :
    (h : Host) (r : Result ConfError (IpAddr × IpNet)) (st : State) → (drop_rule h r st).0 ≡ st.0
drop_rule-client h (err e) st = refl
drop_rule-client h (ok w) st = refl

drop_rule-RuleGone :
    (h : Host) (r : Result ConfError (IpAddr × IpNet)) (st : State)
    → RuleGone r (drop_rule h r st).1.done
drop_rule-RuleGone h (err e) st = tt
drop_rule-RuleGone h (ok w) st = ([], st.1.done, refl, tt)

pub down-IsSwept : (h : Host) (st : State) → IsSwept (down h st).0.0 (down h st).0.1.done
unfolding down
down-IsSwept h (c, m) =
    let quiet : Client = record c { ready = false; dialer = none } in
    let r = interface_addr c.conf in
    let dropped : State = drop_rule h r (quiet, m) in
    let flushed : State = ignored h flush_args dropped in
    let g : Stage c.conf flushed = record {
      conf = ap (λ z. z.conf) (drop_rule-client h r (quiet, m));
      routes = ([], dropped.1.done, refl, tt);
      rule =
          RuleGone-cons r (run flush_args) dropped.1.done refl (drop_rule-RuleGone h r (quiet, m));
    } in
    let unpinned : State = unpin h flushed in
    del_link-IsSwept h c.conf (stop_daemon h unpinned).0 (
      stop_if-Stage h c.conf unpinned.0.daemon unpinned
        (unpin_from-Stage h c.conf flushed.0.pinned flushed g))

-- Removing the interface once more changes nothing of that.
pub again-IsSwept :
    (h : Host) (st : State)
    → IsSwept st.0 st.1.done
    → IsSwept (del_link h st).0 (del_link h st).1.done
again-IsSwept h (c, m) (l, t, u) =
    del_link-IsSwept h c.conf (c, m) (record { conf = refl; routes = t; rule = u })
