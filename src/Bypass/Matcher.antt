-- ===== src/Bypass/Matcher.antt =====
-- internal/bypass/matcher.go: which rule covers a destination. The receiver is a matcher: the guards
-- `m == nil` have no counterpart. A detail is the answer and the text of the rule that gave it.
pub mod Coverage
pub mod Names
pub mod Unmatched
use outline_gate.Prelude.{
  ℕ, Bool, true, false, not, ◌&&◌, ◌||◌, List, [], ◌∷◌, ◌++◌, Option, some, none, if◌then◌else◌,
  any,
}
use outline_gate.Go.Text.{Text, text_eq, is_empty, has_suffix}
use outline_gate.Go.Unicode.{Unicode}
use outline_gate.Go.Ip.{IpAddr, IpNet, is_nil, prefer4, net_contains}
use outline_gate.Go.IpParse.{parse_ip}
use outline_gate.Bypass.Rule.{Kind, ip, cidr, domain, suffix, Rule, normalize_host}

-- `Matcher`; `NewMatcher` and `Rules` copy the slice.
abbrev pub Matcher : Type 0
Matcher = List Rule

abbrev pub no_match : Bool × Text
no_match = (false, [])

-- The switch of the loop of `MatchHostDetail`.
abbrev pub covers_name : Kind → Text → Text → Bool
covers_name domain host rule_host = text_eq host rule_host
covers_name suffix host rule_host = text_eq host rule_host || has_suffix host (b'.' ∷ rule_host)
covers_name _ host rule_host = false

unfoldable pub match_name : List Rule → Text → Bool × Text
match_name [] host = no_match
match_name (r ∷ rs) host =
    if covers_name r.kind host r.host then (true, r.raw) else match_name rs host

abbrev pub covers_ip : Option IpNet → IpAddr → Bool
covers_ip none addr = false
covers_ip (some n) addr = net_contains n addr

unfoldable pub match_ip_rules : List Rule → IpAddr → Bool × Text
match_ip_rules [] addr = no_match
match_ip_rules (r ∷ rs) addr =
    if covers_ip r.net addr then (true, r.raw) else match_ip_rules rs addr

-- `MatchIPDetail` and `MatchIP`.
unfoldable pub match_ip_detail : Matcher → IpAddr → Bool × Text
match_ip_detail m addr = if is_nil addr then no_match else match_ip_rules m (prefer4 addr)

abbrev pub match_ip : Matcher → IpAddr → Bool
match_ip m addr = (match_ip_detail m addr).0

-- `MatchHostDetail` and `MatchHost`.
unfoldable pub match_host_detail : Unicode → Matcher → Text → Bool × Text
match_host_detail u m host =
    let h = normalize_host u host in
    let addr = parse_ip h in
    if is_empty h
    then no_match
    else if not (is_nil addr)
    then match_ip_detail m addr
    else match_name m h

abbrev pub match_host : Unicode → Matcher → Text → Bool
match_host u m host = (match_host_detail u m host).0

-- `StaticNets`.
unfoldable pub static_nets : List Rule → List IpNet
static_nets [] = []
static_nets (r ∷ rs) = elim r.net [ none ↦ static_nets rs | some n ↦ n ∷ static_nets rs ]

abbrev pub host_to_resolve : Rule → Text
host_to_resolve r = elim r.kind [ domain ↦ r.host | suffix ↦ r.host | _ ↦ [] ]

abbrev pub seen_before : List Text → Text → Bool
seen_before seen t = any (λ s. text_eq s t) seen

-- The loop of `DomainsToResolve`; the map `seen` has the names in `out`.
unfoldable pub domains_onto : List Text → List Rule → List Text
domains_onto out [] = out
domains_onto out (r ∷ rs) =
    let h = host_to_resolve r in
    domains_onto (if is_empty h || seen_before out h then out else out ++ h ∷ []) rs

unfoldable pub domains_to_resolve : List Rule → List Text
unfolding domains_onto
domains_to_resolve rs = domains_onto [] rs
