-- ===== src/Proxy.antt =====
-- internal/proxy/path_decider.go: the path of a destination for the transparent proxy. The receiver is a
-- decider: its guard `d == nil` has no counterpart. `BypassMatcher` is a function from the text of a host
-- to the answer and the rule; the engine is the one that the callback gives at the call. The connections
-- are in the child modules.
pub mod Agreement
pub mod Conn
pub mod Http
pub mod Socks
pub mod Transparent
use outline_gate.Prelude.{Bool, true, false, Option, some, none, if◌then◌else◌, List, []}
use outline_gate.Go.Text.{Text, codes}
use outline_gate.Go.Ip.{IpAddr, is_nil}
use outline_gate.Go.IpString.{ip_string}
use outline_gate.Routing.{Engine, Route, direct, tunnel, drop, decide, is_server}

abbrev pub path_direct : Text
path_direct = codes "direct"

abbrev pub path_tunnel : Text
path_tunnel = codes "tunnel"

abbrev pub path_drop : Text
path_drop = codes "drop"

-- `BypassMatcher`, which may be nil.
abbrev pub BypassMatcher : Type 0
BypassMatcher = Option (Text → Bool × Text)

abbrev pub match_of : BypassMatcher → IpAddr → Bool × Text
match_of none ip = (false, [])
match_of (some f) ip = f (ip_string ip)

-- The switch of `DecidePath`.
abbrev pub path_of : Engine → BypassMatcher → IpAddr → Route → Text × Text
path_of e bypass dst drop = (path_drop, codes "policy:drop")
path_of e bypass dst tunnel = (path_tunnel, [])
path_of e bypass dst direct =
    let found = match_of bypass dst in
    if is_server e dst
    then (path_direct, codes "outline-server")
    else if found.0
    then (path_direct, found.1)
    else (path_direct, codes "policy:direct")

abbrev pub path_for : Option Engine → BypassMatcher → IpAddr → Text × Text
path_for none bypass dst = (path_tunnel, [])
path_for (some e) bypass dst = path_of e bypass dst (decide e dst)

-- `DecidePath`.
unfoldable pub decide_path : Option Engine → BypassMatcher → BypassMatcher → IpAddr → Text × Text
decide_path engine bypass block dst =
    let blocked = match_of block dst in
    if is_nil dst
    then (path_tunnel, [])
    else if blocked.0
    then (path_drop, blocked.1)
    else path_for engine bypass dst
