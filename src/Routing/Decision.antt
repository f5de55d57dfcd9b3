-- ===== src/Routing/Decision.antt =====
-- internal/routing/routing.go: which destinations `Decide` sends where.
use outline_gate.Prelude.{◌≡◌, ◌≢◌, ◌↔◌, ◌⊎◌, true, List, [], ◌∷◌, arith, Some, any_iff}
use outline_gate.Go.Text.{text_eq_iff}
use outline_gate.Go.Ip.{IpAddr, IpNet, is_nil, prefer4, ip_equal, net_contains}
use outline_gate.Config.{mode_exclude, mode_include, direct_drop}
use outline_gate.Routing.{tunnel, drop, Engine, decide, is_server, is_server_ip, contains_ip}

-- The destination, in its short form, is one of the server addresses.
abbrev pub IsServer : Engine → IpAddr → Type 0
IsServer e dst = Some (λ ip. (ip ≢ []) × (ip_equal (prefer4 ip) (prefer4 dst) ≡ true)) e.server_ips

-- The destination, in its short form, lies in one of the nets.
abbrev pub Covers : List IpNet → IpAddr → Type 0
Covers nets dst = Some (λ n. net_contains n (prefer4 dst) ≡ true) nets

is_nil_iff : (ip : IpAddr) → (is_nil ip ≡ true) ↔ (ip ≡ [])
is_nil_iff [] = ground arith
is_nil_iff (x ∷ xs) = ground arith

pub is_server_iff :
    (e : Engine) (dst : IpAddr) → (is_server e (prefer4 dst) ≡ true) ↔ IsServer e dst
is_server_iff e dst =
    any_iff _ (is_server_ip (prefer4 dst)) (λ ip. ground (arith, is_nil_iff ip)) e.server_ips

pub contains_ip_iff :
    (nets : List IpNet) (dst : IpAddr) → (contains_ip nets (prefer4 dst) ≡ true) ↔ Covers nets dst
contains_ip_iff nets dst =
    any_iff _ (λ n. net_contains n (prefer4 dst)) (λ n. (λ e. e, λ e. e)) nets

-- `Decide` chooses the tunnel exactly for an address that is no server and in no bypass net, in exclude
-- mode, or in include mode if it lies in a tunnel net.
pub decide-tunnel_iff :
    (e : Engine) (dst : IpAddr)
    → (decide e dst ≡ tunnel) ↔ (
        (dst ≢ [])
        × (¬ IsServer e dst)
        × (¬ Covers e.bypass dst)
        × ((e.mode ≡ mode_exclude) ⊎ ((e.mode ≡ mode_include) × Covers e.tunnel_nets dst)))
unfolding decide
decide-tunnel_iff e dst = ground (
  arith,
  is_nil_iff dst,
  is_server_iff e dst,
  contains_ip_iff e.bypass dst,
  contains_ip_iff e.tunnel_nets dst,
  text_eq_iff e.mode mode_exclude,
  text_eq_iff e.mode mode_include,
)

-- `Decide` drops exactly no address at all, and an address that is no server and in no bypass net if the
-- mode is unknown, or if in include mode it lies in no tunnel net and the policy is to drop.
pub decide-drop_iff :
    (e : Engine) (dst : IpAddr)
    → (decide e dst ≡ drop) ↔ (
        (dst ≡ [])
        ⊎ ((¬ IsServer e dst)
            × (¬ Covers e.bypass dst)
            × (((e.mode ≢ mode_exclude) × (e.mode ≢ mode_include))
                ⊎ ((e.mode ≡ mode_include)
                    × (¬ Covers e.tunnel_nets dst)
                    × (e.direct_policy ≡ direct_drop)))))
unfolding decide
decide-drop_iff e dst = ground (
  arith,
  is_nil_iff dst,
  is_server_iff e dst,
  contains_ip_iff e.bypass dst,
  contains_ip_iff e.tunnel_nets dst,
  text_eq_iff e.mode mode_exclude,
  text_eq_iff e.mode mode_include,
  text_eq_iff e.direct_policy direct_drop,
)
