-- ===== src/Proxy/Transparent/Policy.antt =====
-- internal/proxy/transparent.go, internal/proxy/path_decider.go: a redirected connection takes the path of
-- the routing engine.
use outline_gate.Prelude.{
  ℕ, ◌≡◌, refl, ap, ◌∙◌, Bool, true, false, List, [], ◌∷◌, ◌++◌, Option, some, none, if◌then◌else◌,
  if-both,
}
use outline_gate.Go.Text.{Text, is_empty}
use outline_gate.Go.Ip.{IpAddr, v4_prefix, is_nil, to4}
use outline_gate.Go.IpString.{itoa, ip_string}
use outline_gate.Go.HostPort.{join_host_port}
use outline_gate.Go.HostPortLaws.{split_host_port-join, AllDecimal-itoa}
use outline_gate.Go.Ip4Text.{dotted, contains-dotted, parse_ip-dotted}
use outline_gate.Routing.{Engine, Route, direct, tunnel, drop, decide, route_string}
use outline_gate.Routing.Sets.{IsV4, v4, decide_mapped}
use outline_gate.Proxy.{BypassMatcher, match_of, decide_path, path_drop, path_direct, path_tunnel}
use outline_gate.Proxy.Agreement.{decide_path-route}
use outline_gate.Proxy.Conn.{Action, dials_direct, dials_tunnel, relays, Dialed, ConnEvent}
use outline_gate.Proxy.Transparent.{
  Transparent, Redirected, original_dst, handle, follow, choose, after_dial, l3_event, record_event,
}

-- The dials among the actions.
abbrev pub dials_of : List Action → List Action
dials_of [] = []
dials_of (dials_tunnel t ∷ l) = dials_tunnel t ∷ dials_of l
dials_of (dials_direct t ∷ l) = dials_direct t ∷ dials_of l
dials_of (_ ∷ l) = dials_of l

-- The dial that a route asks for.
abbrev pub route_dials : Route → Text → List Action
route_dials direct t = dials_direct t ∷ []
route_dials tunnel t = dials_tunnel t ∷ []
route_dials drop t = []

module _ (t : Transparent) (client orig : Text) where
  recorded-dials : (e : ConnEvent) (l : List Action) → dials_of (record_event t e ++ l) ≡ dials_of l
  recorded-dials e l = if-both (λ r. dials_of (r ++ l) ≡ dials_of l) t.logs _ _ refl refl

  after_dial-dials :
      (path : Text × Text) (d : Dialed) → dials_of (after_dial t client orig path d) ≡ []
  after_dial-dials path d = answered d.error
    where
      answered :
          (e : Option Text)
          → dials_of (elim e [
            | some e ↦ record_event t (l3_event client orig path false e d.duration_ms)
            | none ↦ record_event t (l3_event client orig path true [] d.duration_ms) ++ relays ∷ []
          ])
            ≡ []
      answered (some e) = if-both (λ r. dials_of r ≡ []) t.logs _ _ refl refl
      answered none = recorded-dials _ (relays ∷ [])

  follow_route :
      (r : Route) (rule : Text)
      → dials_of (follow t client orig (route_string r, rule)) ≡ route_dials r orig
  unfolding follow
  follow_route direct rule =
      ap (λ l. dials_direct orig ∷ l) (after_dial-dials (path_direct, rule) (t.dial_direct orig))
  follow_route tunnel rule =
      ap (λ l. dials_tunnel orig ∷ l) (after_dial-dials (path_tunnel, rule) (t.dial_tunnel orig))
  follow_route drop rule = if-both (λ l. dials_of l ≡ []) t.logs _ _ refl refl

  follow-dials :
      (r : Route) (path : Text × Text)
      → path.0 ≡ route_string r
      → dials_of (follow t client orig path) ≡ route_dials r orig
  follow-dials r path e =
      ap (λ v. dials_of (follow t client orig (v, path.1))) e ∙ follow_route r path.1

-- The path of an engine and a block list, as a route.
abbrev pub policy : Engine → BypassMatcher → IpAddr → Route
policy e block ip = if (match_of block ip).0 then drop else decide e ip

some_path : (r : Route) → is_empty (route_string r) ≡ false
some_path direct = refl
some_path tunnel = refl
some_path drop = refl

choose-path :
    (f : IpAddr → Text × Text) (ip : IpAddr) (r : Route)
    → (f ip).0 ≡ route_string r
    → (choose (some f) ip).0 ≡ route_string r
choose-path f ip r e = rw (e, some_path r) refl

module _ (e : Engine) (bypass block : BypassMatcher) {ip : IpAddr} (w : IsV4 ip) where
  mapped-not-nil : is_nil (v4_prefix ++ ip) ≡ false
  mapped-not-nil = refl

  match_of-mapped : match_of block (v4_prefix ++ ip) ≡ match_of block ip
  match_of-mapped = by_matcher block w
    where
      by_matcher :
          (m : BypassMatcher) {x : IpAddr} → IsV4 x → match_of m (v4_prefix ++ x) ≡ match_of m x
      by_matcher none k = refl
      by_matcher (some f) (v4 a b c d) = unfold ip_string to4 in refl

  route_policy :
      (b : Bool)
      → (if b then path_drop else route_string (decide e ip))
        ≡ route_string (if b then drop else decide e ip)
  route_policy true = refl
  route_policy false = refl

  decide_path-policy :
      (decide_path (some e) bypass block (v4_prefix ++ ip)).0 ≡ route_string (policy e block ip)
  decide_path-policy =
      decide_path-route e bypass block (v4_prefix ++ ip) mapped-not-nil
      ∙ rw (match_of-mapped, decide_mapped e w) (route_policy (match_of block ip).0)

-- A connection that was on its way to an IPv4 address and port, under a decider with an engine: the one
-- dial is that of the path, the tunnel's or the direct one to that very address and port, and there is
-- none where the block list matches the address or the engine drops it.
pub handle-dials :
    (t : Transparent) (client : Text) (r : Redirected) (e : Engine) (bypass block : BypassMatcher)
    {a b c d : ℕ} (port : ℕ)
    → IsV4 (a ∷ b ∷ c ∷ d ∷ [])
    → t.decider ≡ some (decide_path (some e) bypass block)
    → original_dst r ≡ some (join_host_port (dotted a b c d) (itoa port))
    → dials_of (handle t client r)
      ≡ route_dials
          (policy e block (a ∷ b ∷ c ∷ d ∷ []))
          (join_host_port (dotted a b c d) (itoa port))
unfolding handle
handle-dials t client r e bypass block port (v4 {a} {b} {c} {d} ha hb hc hd) k o =
    let ip : IpAddr = a ∷ b ∷ c ∷ d ∷ [] in
    let orig : Text = join_host_port (dotted a b c d) (itoa port) in
    let path : Text × Text = choose (some (decide_path (some e) bypass block)) (v4_prefix ++ ip) in
    let split =
      split_host_port-join (dotted a b c d) (itoa port) (contains-dotted ha hb hc hd b':' refl refl)
        (contains-dotted ha hb hc hd b'[' refl refl) (contains-dotted ha hb hc hd b']' refl refl)
        (AllDecimal-itoa port) in
    let chosen =
      choose-path (decide_path (some e) bypass block) (v4_prefix ++ ip) (policy e block ip)
        (decide_path-policy e bypass block (v4 ha hb hc hd)) in
    rw (handle, o, split, parse_ip-dotted ha hb hc hd)
      (ap (λ q. dials_of (follow t client orig (choose q (v4_prefix ++ ip)))) k
        ∙ follow-dials t client orig (policy e block ip) path chosen)
