-- ===== src/Tests/Routes.antt =====
-- internal/routing/routing.go: an engine with one bypass net, one tunnel net and two servers.
use outline_gate.Prelude.{
  some, none, true, ◌<◌, ℕ, ◌≡◌, ◌≢◌, refl, [], ◌∷◌, ◌++◌, arith, if◌then◌else◌, ◌↔◌, ◌⊎◌,
}
use outline_gate.Go.Ip.{IpAddr, v4_prefix, to4, net_contains, ip_equal}
use outline_gate.Config.{mode_exclude, mode_include, direct_drop}
use outline_gate.Routing.{
  Engine, direct, tunnel, drop, decide, decide_mode, route_string, bypass_nets, contains_ip,
}
use outline_gate.Proxy.{BypassMatcher, decide_path, path_drop}
use outline_gate.Proxy.Agreement.{decide_path-route}
use outline_gate.Routing.Decision.{IsServer, Covers, decide-tunnel_iff}
use outline_gate.Routing.Sets.{IsV4, v4, short, mapped, decide-bypass_nets}

abbrev server : IpAddr
server = 192 ∷ 0 ∷ 2 ∷ 1 ∷ []

abbrev lan_host : IpAddr
lan_host = 10 ∷ 0 ∷ 0 ∷ 9 ∷ []

abbrev far_host : IpAddr
far_host = 203 ∷ 0 ∷ 113 ∷ 5 ∷ []

abbrev engine : Engine
engine = record {
  mode = mode_include;
  direct_policy = direct_drop;
  bypass = record { ip = 10 ∷ 0 ∷ 0 ∷ 0 ∷ []; mask = 255 ∷ 0 ∷ 0 ∷ 0 ∷ [] } ∷ [];
  tunnel_nets = record { ip = 203 ∷ 0 ∷ 113 ∷ 0 ∷ []; mask = 255 ∷ 255 ∷ 255 ∷ 0 ∷ [] } ∷ [];
  server_ips = server ∷ (v4_prefix ++ 192 ∷ 0 ∷ 2 ∷ 2 ∷ []) ∷ [];
}

decisions :
    (decide engine far_host ≡ tunnel)
    × (decide engine lan_host ≡ direct)
    × (decide engine server ≡ direct)
    × (decide engine (192 ∷ 0 ∷ 2 ∷ 2 ∷ []) ≡ direct)
    × (decide engine (192 ∷ 0 ∷ 2 ∷ 3 ∷ []) ≡ drop)
    × (decide engine [] ≡ drop)
unfolding decide to4 net_contains ip_equal
decisions = (refl, refl, refl, refl, refl, refl)

decide-tunnel_iff_example : (decide engine far_host ≡ tunnel) ↔ (
    (far_host ≢ [])
    × (¬ IsServer engine far_host)
    × (¬ Covers engine.bypass far_host)
    × ((engine.mode ≡ mode_exclude)
        ⊎ ((engine.mode ≡ mode_include) × Covers engine.tunnel_nets far_host)))
decide-tunnel_iff_example = decide-tunnel_iff engine far_host

far_host-IsV4 : IsV4 far_host
far_host-IsV4 = v4 (omega arith) (omega arith) (omega arith) (omega arith)

byte_server-IsV4 : {d : ℕ} → d < 256 → IsV4 (192 ∷ 0 ∷ 2 ∷ d ∷ [])
byte_server-IsV4 h = v4 (omega arith) (omega arith) (omega arith) h

decide-bypass_nets_example :
    decide engine far_host
    ≡ (if contains_ip (bypass_nets engine) far_host then direct else decide_mode engine far_host)
decide-bypass_nets_example =
    decide-bypass_nets engine
      (short (byte_server-IsV4 (omega arith)), (mapped (byte_server-IsV4 (omega arith)), tt))
      far_host-IsV4

abbrev block_all : BypassMatcher
block_all = some (λ host. (true, host))

decide_path-route_example :
    (decide_path (some engine) none block_all far_host).0
    ≡ (if true then path_drop else route_string (decide engine far_host))
decide_path-route_example = decide_path-route engine none block_all far_host refl
