-- ===== src/Tests/Wire.antt =====
-- internal/proxy/socks5.go, internal/proxy/transparent.go, internal/bypass/rule.go: a server with a
-- blocked name and a bypassed one, and connections to it.
use outline_gate.Prelude.{◌≡◌, refl, true, false, [], ◌∷◌, some, none, All, arith}
use outline_gate.Go.Text.{Text, codes, text_eq}
use outline_gate.Go.Ip.{to4}
use outline_gate.Go.IpString.{itoa, ip_string}
use outline_gate.Go.HostPort.{join_host_port}
use outline_gate.Go.Ip4Text.{dotted}
use outline_gate.Routing.{Engine, new}
use outline_gate.Routing.Sets.{v4}
use outline_gate.Proxy.{decide_path}
use outline_gate.Proxy.Conn.{writes, Server, Client, Dialed, checker, connect, ip_allowed}
use outline_gate.Proxy.Http.{Parser}
use outline_gate.Proxy.Socks.{handle, socks_voice}
use outline_gate.Proxy.Socks.Requests.{name, request, handle-request}
use outline_gate.Proxy.Socks.Outcomes.{Permits, IsTidy, handle-Permits, handle-IsTidy}
use outline_gate.Proxy.Transparent
use outline_gate.Proxy.Transparent.Policy.{policy, dials_of, route_dials, handle-dials}

abbrev connected_at_once : Text → Dialed
connected_at_once t = record { error = none; duration_ms = 3 }

abbrev no_http : Parser
no_http input = none

abbrev gate : Server
gate = record {
  allow = [];
  bypass = checker (λ h. text_eq h (codes "near.example"));
  block = checker (λ h. text_eq h (codes "bad.example"));
  dial_tunnel = connected_at_once;
  dial_direct = connected_at_once;
  logs = false;
}

abbrev asked : Client
asked = record {
  ip = codes "192.0.2.1";
  input = request (0 ∷ []) 0 (name (codes "near.example")) 443 [];
  greeting_fails = false;
  answer_fails = false;
}

handle-request_example :
    handle no_http gate asked
    ≡ writes (5 ∷ 0 ∷ []) ∷ connect socks_voice gate asked (codes "near.example") 443
unfolding ip_allowed
handle-request_example =
    handle-request no_http gate asked (0 ∷ []) 0 (name (codes "near.example")) 443 [] refl refl refl
      tt

handle-Permits_example : All (Permits gate) (handle no_http gate asked)
handle-Permits_example = handle-Permits no_http gate asked

handle-IsTidy_example : IsTidy gate (handle no_http gate asked)
handle-IsTidy_example = handle-IsTidy no_http gate asked

carriage_return : codes "\r\n" ≡ 13 ∷ 10 ∷ []
carriage_return = refl

abbrev plain_engine : Engine
plain_engine =
    new
      (record {
        routing_mode = codes "exclude";
        bypass_cidrs = [];
        tunnel_cidrs = [];
        direct_policy = codes "allow";
      })
      []

abbrev redirector : Transparent.Transparent
redirector = record {
  decider = some (decide_path (some plain_engine) none none);
  dial_tunnel = connected_at_once;
  dial_direct = connected_at_once;
  logs = false;
}

abbrev caught : Transparent.Redirected
caught = record {
  is_tcp = true;
  local_ip = 192 ∷ 0 ∷ 2 ∷ 1 ∷ [];
  original4 = some (record { addr = 192 ∷ 0 ∷ 2 ∷ 9 ∷ []; port_high = 1; port_low = 187 });
  original6 = none;
}

caught_at : Transparent.original_dst caught ≡ some (join_host_port (dotted 192 0 2 9) (itoa 443))
unfolding Transparent.original_dst to4 itoa ip_string
caught_at = refl

handle-dials_example :
    dials_of (Transparent.handle redirector (codes "192.0.2.1") caught)
    ≡ route_dials
        (policy plain_engine none (192 ∷ 0 ∷ 2 ∷ 9 ∷ []))
        (join_host_port (dotted 192 0 2 9) (itoa 443))
handle-dials_example =
    handle-dials redirector (codes "192.0.2.1") caught plain_engine none none 443
      (v4 (omega arith) (omega arith) (omega arith) (omega arith)) refl caught_at
