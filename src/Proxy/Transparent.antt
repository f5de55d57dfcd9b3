-- ===== src/Proxy/Transparent.antt =====
-- internal/proxy/transparent.go: a connection that nftables redirected. What the system calls tell of it
-- is an argument (`Redirected`); the rest is as in Proxy.Conn.
pub mod Destination
pub mod Policy
use outline_gate.Prelude.{
  ℕ, ◌+◌, ◌*◌, Bool, true, false, not, ◌&&◌, List, [], ◌∷◌, ◌++◌, Option, some, none, if◌then◌else◌,
  ℤ, pos, negsuc,
}
use outline_gate.Go.Text.{Text, codes, text_eq, is_empty}
use outline_gate.Go.Ip.{Bytes, IpAddr, is_nil, to4}
use outline_gate.Go.IpParse.{parse_ip}
use outline_gate.Go.IpString.{ip_string, itoa}
use outline_gate.Go.HostPort.{join_host_port, split_host_port, atoi}
use outline_gate.Proxy.{path_direct, path_tunnel, path_drop}
use outline_gate.Proxy.Conn.{Action, records, relays, dials_direct, dials_tunnel, Dialed, ConnEvent}

-- A socket address: the bytes of the address, and the two of the port in the order of the network.
pub record SocketAddr : Type 0 where
  pub addr : Bytes
  pub port_high : ℕ
  pub port_low : ℕ

-- Whether the connection is one of TCP that gives its descriptor; its local address, or nil; and what
-- the two calls of `getsockopt` answer, `none` for an error.
pub record Redirected : Type 0 where
  pub is_tcp : Bool
  pub local_ip : IpAddr
  pub original4 : Option SocketAddr
  pub original6 : Option SocketAddr

-- `originalDST4` and `originalDST6`.
abbrev pub target_of : Option SocketAddr → Option Text
target_of none = none
target_of (some a) =
    some (join_host_port (ip_string a.addr) (itoa (a.port_high * 256 + a.port_low)))

-- A try, and what is done if it fails.
abbrev or_else : Option Text → Option Text → Option Text
or_else none other = other
or_else (some t) other = some t

abbrev try_if : Bool → Option Text → Option Text
try_if b o = if b then o else none

-- `originalDST`.
unfoldable pub original_dst : Redirected → Option Text
original_dst r =
    let known = not (is_nil r.local_ip) in
    let is_v4 = not (is_nil (to4 r.local_ip)) in
    let try4 = not (known && not is_v4) in
    let try6 = not (known && is_v4) in
    if not r.is_tcp
    then none
    else or_else (try_if try4 (target_of r.original4)) (
        or_else (try_if try6 (target_of r.original6)) (
          or_else (try_if (not try4) (target_of r.original4))
            (try_if (not try6) (target_of r.original6))))

-- The fields of `Transparent` that a connection reads.
pub record Transparent : Type 0 where
  pub decider : Option (IpAddr → Text × Text)
  pub dial_tunnel : Text → Dialed
  pub dial_direct : Text → Dialed
  pub logs : Bool

abbrev record_event : Transparent → ConnEvent → List Action
record_event t e = if t.logs then records e ∷ [] else []

abbrev host_part : Option (Text × Text) → Text
host_part none = []
host_part (some w) = w.0

-- The number of the port, or 0. A port that `originalDST` gives has no sign.
abbrev number : Option ℤ → ℕ
number (some (pos n)) = n
number _ = 0

abbrev port_part : Option (Text × Text) → ℕ
port_part none = 0
port_part (some w) = number (atoi w.1)

-- The path and the rule, and the default for an empty path.
abbrev pub choose : Option (IpAddr → Text × Text) → IpAddr → Text × Text
choose none ip = (path_tunnel, [])
choose (some f) ip = if is_empty (f ip).0 then (path_tunnel, (f ip).1) else f ip

-- The event of a connection, with what its path and its dial say.
abbrev pub l3_event : Text → Text → Text × Text → Bool → Text → ℕ → ConnEvent
l3_event client orig path good error ms = record {
  proto = codes "l3";
  client_ip = client;
  target = orig;
  host = host_part (split_host_port orig);
  port = port_part (split_host_port orig);
  via = path.0;
  rule = path.1;
  ok = good;
  error = error;
  duration_ms = ms;
}

abbrev after_dial : Transparent → Text → Text → Text × Text → Dialed → List Action
after_dial t client orig path d = elim d.error [
  | some e ↦ record_event t (l3_event client orig path false e d.duration_ms)
  | none ↦ record_event t (l3_event client orig path true [] d.duration_ms) ++ relays ∷ []
]

-- `handle`, for a known destination and a path.
unfoldable pub follow : Transparent → Text → Text → Text × Text → List Action
follow t client orig path =
    if text_eq path.0 path_drop
    then record_event t (l3_event client orig path false (codes "dropped by routing policy") 0)
    else if text_eq path.0 path_direct
    then dials_direct orig ∷ after_dial t client orig path (t.dial_direct orig)
    else dials_tunnel orig ∷ after_dial t client orig path (t.dial_tunnel orig)

-- `handle`.
unfoldable pub handle : Transparent → Text → Redirected → List Action
handle t client r = elim (original_dst r) [
  | none ↦ []
  | some orig ↦
      follow t client orig (choose t.decider (parse_ip (host_part (split_host_port orig))))
]
