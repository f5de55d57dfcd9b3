-- ===== src/Bypass/Manager.antt =====
-- internal/bypass/manager.go: the user's rules, the nets that their names resolve to, and the matcher. The
-- resolver is an argument of the methods that call it. The callback `onChange` of main rebuilds the
-- routing engine from `EffectiveBypassNets`, so `notices` records these nets at each call of it. A method is
-- one step here. The source holds no lock from the change of the store to the end of the method, so this is
-- the behaviour of calls one after the other, not of calls that overlap.
pub mod Quiet
pub mod Nets
pub mod Current
pub mod Same
pub mod Effective
use outline_gate.Prelude.{
  ℕ, suc, ◌-◌, Bool, true, false, ◌&&◌, List, [], ◌∷◌, ◌++◌, Option, some, none, ◌==◌,
  if◌then◌else◌, length,
}
use outline_gate.Prelude.Result.{Result, ok, err, ◌>>=◌}
use outline_gate.Go.Text.{Text, codes, text_eq, is_empty}
use outline_gate.Go.Unicode.{Unicode}
use outline_gate.Go.Ip.{IpAddr, IpNet, is_nil, to4, prefer4, net_contains, host_net}
use outline_gate.Go.IpParse.{parse_ip}
use outline_gate.Go.IpString.{net_string}
use outline_gate.Bypass.Rule.{Rule, RuleError, parse_rule, normalize_host}
use outline_gate.Bypass.Matcher.{
  Matcher, no_match, match_ip_detail, match_host_detail, static_nets, domains_to_resolve,
  seen_before,
}
use outline_gate.Bypass.Disk.{Disk, Faults}
use outline_gate.Bypass.Store.{Store, StoreError, bad_rule, Outcome, load, add, remove, set_rules}

-- `LookupIPFunc`, with `E` for its errors.
abbrev pub Lookup : Type 0 → Type 0
Lookup E = Text → Result E (List IpAddr)

-- `Manager`; `hooked` tells whether there is a callback.
pub record Manager (E : Type 0) : Type 0 where
  pub store : Store
  pub static : List IpNet
  pub hooked : Bool
  pub matcher : Matcher
  pub resolved : List IpNet
  pub last_error : Option E
  pub notices : List (List IpNet)

pub data ManagerError (E : Type 0) : Type 0 where
  store_error : StoreError → ManagerError E
  lookup_error : E → ManagerError E

-- The closure `add` of `EffectiveBypassNets`, over one list; `keys` are those of `seen`.
unfoldable pub add_nets : List IpNet → List Text × List IpNet → List Text × List IpNet
add_nets [] w = w
add_nets (n ∷ ns) (keys, out) =
    add_nets ns (
      if seen_before keys (net_string n) then (keys, out) else (net_string n ∷ keys, out ++ n ∷ []))

-- The multiset of texts that `sameNets` counts, and how the two loops change it.
abbrev pub increment : Text → (Text → ℕ) → Text → ℕ
increment k count t = if text_eq t k then suc (count t) else count t

abbrev pub decrement : Text → (Text → ℕ) → Text → ℕ
decrement k count t = if text_eq t k then count t - 1 else count t

unfoldable pub count_nets : List IpNet → (Text → ℕ) → Text → ℕ
count_nets [] count = count
count_nets (n ∷ ns) count = count_nets ns (increment (net_string n) count)

unfoldable pub spend_nets : List IpNet → (Text → ℕ) → Bool
spend_nets [] count = true
spend_nets (n ∷ ns) count = elim (count (net_string n) == 0) [
  | true ↦ false
  | false ↦ spend_nets ns (decrement (net_string n) count)
]

-- `sameNets`.
unfoldable pub same_nets : List IpNet → List IpNet → Bool
same_nets a b = length a == length b && spend_nets b (count_nets a (λ t. 0))

-- The loop of `Refresh` over the addresses of one host.
abbrev pub v4_nets : List IpAddr → List IpNet
v4_nets [] = []
v4_nets (ip ∷ ips) = if is_nil (to4 ip) then v4_nets ips else host_net (to4 ip) ∷ v4_nets ips

-- What a method leaves: the manager, the disk and the result.
abbrev pub Done : Type 0 → Type 0 → Type 0
Done E A = Manager E × Disk × Result (ManagerError E) A

-- The first loop of `SetRules`.
unfoldable pub parse_rules : Unicode → List Text → Result RuleError (List Rule)
parse_rules u [] = ok []
parse_rules u (t ∷ ts) = do r ← parse_rule u t; rs ← parse_rules u ts; ok (r ∷ rs)

-- The search of `matchIPDetail` behind the user's rules.
abbrev holds : List IpNet → IpAddr → Bool
holds [] ip = false
holds (n ∷ ns) ip = if net_contains n ip then true else holds ns ip

module _ {E : Type 0} where
  abbrev first_error : Option E → E → Option E
  first_error none e = some e
  first_error (some e) x = some e

  -- The loop of `Refresh` over the hosts.
  unfoldable pub resolve_all : Lookup E → List Text → List IpNet → Option E → List IpNet × Option E
  resolve_all lookup [] nets e = (nets, e)
  resolve_all lookup (h ∷ hs) nets e = elim (lookup h) [
    | err x ↦ resolve_all lookup hs nets (first_error e x)
    | ok ips ↦ resolve_all lookup hs (nets ++ v4_nets ips) e
  ]

  -- `EffectiveBypassNets`.
  unfoldable pub effective_nets : Manager E → List IpNet
  effective_nets m =
      (add_nets m.resolved (add_nets (static_nets m.store.rules) (add_nets m.static ([], [])))).1

  -- `rebuildMatcher`: the rules are read first, and installed under the lock; `notify`.
  abbrev pub install : List Rule → Manager E → Manager E
  install rules m = record m { matcher = rules }

  abbrev pub rebuild_matcher : Manager E → Manager E
  rebuild_matcher m = install m.store.rules m

  abbrev pub notify : Manager E → Manager E
  notify m = if m.hooked then record m { notices = m.notices ++ effective_nets m ∷ [] } else m

  -- `NewManager`, with a store and a resolver.
  abbrev pub new_manager : Store → List IpNet → Bool → Manager E
  new_manager s static hooked = record {
    store = s;
    static = static;
    hooked = hooked;
    matcher = s.rules;
    resolved = [];
    last_error = none;
    notices = [];
  }

  -- `SetStatic`.
  abbrev pub set_static : List IpNet → Manager E → Manager E
  set_static nets m = notify (record m { static = nets })

  -- `Refresh`, from the nets and the first error that the lookups gave.
  abbrev pub take_over : Manager E → List IpNet × Option E → Manager E × Option E
  take_over m (nets, e) =
      let n : Manager E = record m { resolved = nets; last_error = e } in
      (if same_nets m.resolved nets then n else notify n, e)

  unfoldable pub refresh : Lookup E → Manager E → Manager E × Option E
  refresh lookup m = take_over m (resolve_all lookup (domains_to_resolve m.store.rules) [] none)

  -- The end of a method that changed the rules: the matcher is rebuilt, and the names are resolved.
  abbrev pub rebuilt : Lookup E → Store → Manager E → Manager E × Option E
  rebuilt lookup s m = refresh lookup (rebuild_matcher (record m { store = s }))

  abbrev refreshed : {A : Type 0} → A → Option E → Result (ManagerError E) A
  refreshed a none = ok a
  refreshed a (some e) = err (lookup_error e)

  -- `Load` and the end of `SetRules`, which return the error of `Refresh`.
  abbrev pub after_change : Lookup E → Manager E → Outcome (Unit {0}) → Done E (Unit {0})
  after_change lookup m (s, d, err e) = (record m { store = s }, d, err (store_error e))
  after_change lookup m (s, d, ok x) = let w = rebuilt lookup s m in (w.0, d, refreshed tt w.1)

  unfoldable pub load_manager : Unicode → Faults → Lookup E → Manager E → Disk → Done E (Unit {0})
  load_manager u f lookup m d = after_change lookup m (load u f m.store d)

  -- `AddRule`, which ignores the error of `Refresh`.
  abbrev pub after_add : Lookup E → Manager E → Outcome Rule → Done E Rule
  after_add lookup m (s, d, err e) = (record m { store = s }, d, err (store_error e))
  after_add lookup m (s, d, ok r) = ((rebuilt lookup s m).0, d, ok r)

  unfoldable pub add_rule : Unicode → Faults → Lookup E → Text → Manager E → Disk → Done E Rule
  add_rule u f lookup raw m d = after_add lookup m (add u f raw m.store d)

  -- `RemoveRule`.
  abbrev pub after_remove : Lookup E → Manager E → Outcome Bool → Done E Bool
  after_remove lookup m (s, d, err e) = (record m { store = s }, d, err (store_error e))
  after_remove lookup m (s, d, ok false) = (record m { store = s }, d, ok false)
  after_remove lookup m (s, d, ok true) = ((rebuilt lookup s m).0, d, ok true)

  unfoldable pub remove_rule : Unicode → Faults → Lookup E → Text → Manager E → Disk → Done E Bool
  remove_rule u f lookup raw m d = after_remove lookup m (remove u f raw m.store d)

  -- `SetRules`.
  unfoldable pub replace_rules :
      Unicode → Faults → Lookup E → List Text → Manager E → Disk → Done E (Unit {0})
  replace_rules u f lookup raws m d = elim (parse_rules u raws) [
    | err e ↦ (m, d, err (store_error (bad_rule e)))
    | ok rules ↦ after_change lookup m (set_rules u f rules m.store d)
  ]

  -- `matchIPDetail`.
  unfoldable pub match_ip_bypass : Manager E → IpAddr → Bool × Text
  match_ip_bypass m addr =
      let ip = prefer4 addr in
      let found = match_ip_detail m.matcher ip in
      if is_nil addr
      then no_match
      else if found.0
      then (true, found.1)
      else if holds m.static ip
      then (true, codes "static")
      else if holds m.resolved ip
      then (true, codes "dns-resolved")
      else no_match

  -- `MatchBypass`.
  unfoldable pub match_bypass : Unicode → Manager E → Text → Bool × Text
  match_bypass u m text =
      let host = normalize_host u text in
      let addr = parse_ip host in
      if is_empty host
      then no_match
      else if is_nil addr
      then match_host_detail u m.matcher host
      else match_ip_bypass m addr
