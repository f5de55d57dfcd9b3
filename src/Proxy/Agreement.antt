-- ===== src/Proxy/Agreement.antt =====
-- internal/proxy/path_decider.go: the paths of the transparent proxy are those of the routing engine.
use outline_gate.Prelude.{◌≡◌, refl, inl, inr, false, some, if◌then◌else◌, if-both, Bool-cases}
use outline_gate.Go.Text.{Text}
use outline_gate.Go.Ip.{IpAddr, is_nil}
use outline_gate.Routing.{Engine, Route, direct, tunnel, drop, decide, route_string, is_server}
use outline_gate.Proxy.{BypassMatcher, match_of, path_of, decide_path, path_drop, path_direct}

path_of-route :
    (e : Engine) (bypass : BypassMatcher) (dst : IpAddr) (r : Route)
    → (path_of e bypass dst r).0 ≡ route_string r
path_of-route e bypass dst drop = refl
path_of-route e bypass dst tunnel = refl
path_of-route e bypass dst direct =
    let P : Text × Text → Type 0 = λ w. w.0 ≡ path_direct in
    if-both P (is_server e dst) _ _ refl (if-both P (match_of bypass dst).0 _ _ refl refl)

-- For an address, with an engine: a destination that the block list matches is dropped, and any other
-- takes the path that `Decide` chooses, under whatever rule.
pub decide_path-route :
    (e : Engine) (bypass block : BypassMatcher) (dst : IpAddr)
    → is_nil dst ≡ false
    → (decide_path (some e) bypass block dst).0
      ≡ (if (match_of block dst).0 then path_drop else route_string (decide e dst))
unfolding decide_path
decide_path-route e bypass block dst a = elim (Bool-cases (match_of block dst).0) [
  | inl blocked ↦ rw (a, blocked) refl
  | inr free ↦ rw (a, free) (path_of-route e bypass dst (decide e dst))
]
