-- ===== src/Routing.antt =====
-- internal/routing/routing.go: the pure split-tunnel decision. The receiver is an engine: the guards
-- `e == nil` have no counterpart. Slices are values: every method copies them.
pub mod Decision
pub mod Sets
use outline_gate.Prelude.{
  ℕ, ◌+◌, ◌≡◌, Bool, true, false, not, ◌&&◌, ◌||◌, List, [], ◌∷◌, ◌++◌, if◌then◌else◌, any,
}
use outline_gate.Go.Text.{Text, codes, text_eq}
use outline_gate.Go.Ip.{IpAddr, IpNet, is_nil, to4, prefer4, ip_equal, net_contains, host_net}
use outline_gate.Config.{RouteConfig, mode_exclude, mode_include, direct_drop}

-- `Path`; a value beside the three constants does not arise.
pub data Route : Type 0 where
  direct tunnel drop : Route

-- `Path.String`.
abbrev pub route_string : Route → Text
route_string direct = codes "direct"
route_string tunnel = codes "tunnel"
route_string drop = codes "drop"

pub record Engine : Type 0 where
  pub mode : Text
  pub direct_policy : Text
  pub bypass : List IpNet
  pub tunnel_nets : List IpNet
  pub server_ips : List IpAddr

-- `NewWithBypass`, and `New`.
abbrev pub new_with_bypass : RouteConfig → List IpNet → List IpAddr → Engine
new_with_bypass cfg bypass server_ips = record {
  mode = cfg.routing_mode;
  direct_policy = cfg.direct_policy;
  bypass = bypass;
  tunnel_nets = cfg.tunnel_cidrs;
  server_ips = server_ips;
}

abbrev pub new : RouteConfig → List IpAddr → Engine
new cfg = new_with_bypass cfg cfg.bypass_cidrs

-- `WithBypass` and `WithServerIPs`.
abbrev pub with_bypass : Engine → List IpNet → Engine
with_bypass e bypass = record e { bypass = bypass }

abbrev pub with_server_ips : Engine → List IpAddr → Engine
with_server_ips e ips = record e { server_ips = ips }

-- The body of the loop of `isServer`.
abbrev pub is_server_ip : IpAddr → IpAddr → Bool
is_server_ip dst ip = if is_nil ip then false else ip_equal (prefer4 ip) dst

-- `isServer`.
abbrev pub is_server : Engine → IpAddr → Bool
is_server e dst = any (is_server_ip dst) e.server_ips

-- `containsIP`.
abbrev pub contains_ip : List IpNet → IpAddr → Bool
contains_ip nets ip = any (λ n. net_contains n ip) nets

-- The switch on the mode, for a destination that is no server and in no bypass net.
abbrev pub decide_mode : Engine → IpAddr → Route
decide_mode e dst =
    if text_eq e.mode mode_exclude
    then tunnel
    else if text_eq e.mode mode_include
    then (if contains_ip e.tunnel_nets dst
        then tunnel
        else if text_eq e.direct_policy direct_drop
        then drop
        else direct)
    else drop

-- `Decide`.
unfoldable pub decide : Engine → IpAddr → Route
decide e dst =
    if is_nil dst
    then drop
    else let d = prefer4 dst in
      if is_server e d || contains_ip e.bypass d then direct else decide_mode e d

abbrev is_tunnel : Route → Bool
is_tunnel tunnel = true
is_tunnel _ = false

-- `ShouldTunnel`.
abbrev pub should_tunnel : Engine → IpAddr → Bool
should_tunnel e dst = is_tunnel (decide e dst)

-- The loop of `BypassNets`: the IPv4 server addresses as host nets.
abbrev pub server_nets : List IpAddr → List IpNet
server_nets [] = []
server_nets (ip ∷ ips) =
    if is_nil ip || is_nil (to4 ip) then server_nets ips else host_net (to4 ip) ∷ server_nets ips

-- `BypassNets`.
abbrev pub bypass_nets : Engine → List IpNet
bypass_nets e = e.bypass ++ server_nets e.server_ips
