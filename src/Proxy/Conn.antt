-- ===== src/Proxy/Conn.antt =====
-- internal/proxy/socks5.go: what the proxies share. A client is what it sends until its stream ends or
-- fails; the handlers answer with the list of what they do, in order. Logging is left out.
use outline_gate.Prelude.{
  ℕ, Bool, true, false, List, [], ◌∷◌, ◌++◌, Option, some, none, if◌then◌else◌, any,
}
use outline_gate.Go.Text.{Text, codes}
use outline_gate.Go.Ip.{Bytes, IpNet, is_nil, net_contains}
use outline_gate.Go.IpParse.{parse_ip}
use outline_gate.Go.IpString.{itoa}
use outline_gate.Go.HostPort.{join_host_port}

-- `ConnEvent`.
pub record ConnEvent : Type 0 where
  pub proto : Text
  pub client_ip : Text
  pub target : Text
  pub host : Text
  pub port : ℕ
  pub via : Text
  pub rule : Text
  pub ok : Bool
  pub error : Text
  pub duration_ms : ℕ

-- What a handler does: bytes for the client, a dial of the tunnel's dialer or of the direct one, an event
-- for the log, and the relay of the two streams until they end.
pub data Action : Type 0 where
  writes : Bytes → Action
  dials_tunnel dials_direct : Text → Action
  records : ConnEvent → Action
  relays : Action

-- `BypassChecker`, which may be nil, and may be a `BypassMatcher` too.
pub data Checker : Type 0 where
  no_checker : Checker
  checker : (Text → Bool) → Checker
  matcher : (Text → Bool × Text) → Checker

-- `matchChecker`.
abbrev pub match_checker : Checker → Text → Bool × Text
match_checker no_checker host = (false, [])
match_checker (checker f) host = (f host, [])
match_checker (matcher f) host = f host

-- The answer of a dialer: its error, if any, and the milliseconds that it took.
pub record Dialed : Type 0 where
  pub error : Option Text
  pub duration_ms : ℕ

-- The fields of `SOCKS5` that a connection reads; a nil `DirectDialer` stands for the default one.
pub record Server : Type 0 where
  pub allow : List IpNet
  pub bypass : Checker
  pub block : Checker
  pub dial_tunnel : Text → Dialed
  pub dial_direct : Text → Dialed
  pub logs : Bool

-- `ipAllowed`.
unfoldable pub ip_allowed : Text → List IpNet → Bool
ip_allowed client [] = true
ip_allowed client (n ∷ ns) =
    let ip = parse_ip client in if is_nil ip then false else any (λ m. net_contains m ip) (n ∷ ns)

-- `record`.
abbrev pub record_event : Server → ConnEvent → List Action
record_event s e = if s.logs then records e ∷ [] else []

-- The path of `dialTarget`, its rule, and what the dialer answers.
pub record DialOutcome : Type 0 where
  pub via : Text
  pub rule : Text
  pub dial : Action
  pub dialed : Dialed

abbrev pub direct_dial : Server → Text → Text → DialOutcome
direct_dial s rule target = record {
  via = codes "direct";
  rule = rule;
  dial = dials_direct target;
  dialed = s.dial_direct target;
}

abbrev pub tunnel_dial : Server → Text → DialOutcome
tunnel_dial s target = record {
  via = codes "tunnel";
  rule = [];
  dial = dials_tunnel target;
  dialed = s.dial_tunnel target;
}

-- `dialTarget`.
abbrev pub dial_target : Server → Text → Text → DialOutcome
dial_target s host target =
    let found = match_checker s.bypass host in
    if found.0 then direct_dial s found.1 target else tunnel_dial s target

-- `SetAllowCIDRs`.
abbrev pub set_allow : List IpNet → Server → Server
set_allow nets s = record s { allow = nets }

-- A client: its address, its bytes, and whether the writes of the handshake and of the last answer to it
-- fail.
pub record Client : Type 0 where
  pub ip : Text
  pub input : Bytes
  pub greeting_fails : Bool
  pub answer_fails : Bool

-- In what the two protocols differ once the destination is known: the name in the log, and the answers
-- for a blocked destination, a failed dial and a success.
pub record Voice : Type 0 where
  pub proto : Text
  pub blocked : Bytes
  pub failed : Bytes
  pub connected : Bytes

abbrev pub event_of : Voice → Client → Text → ℕ → Text → Text → Bool → Text → ℕ → ConnEvent
event_of v c host port via rule ok error ms = record {
  proto = v.proto;
  client_ip = c.ip;
  target = join_host_port host (itoa port);
  host = host;
  port = port;
  via = via;
  rule = rule;
  ok = ok;
  error = error;
  duration_ms = ms;
}

-- What follows a dial.
abbrev pub after_dial : Voice → Server → Client → Text → ℕ → DialOutcome → List Action
after_dial v s c host port o = elim o.dialed.error [
  | some e ↦
      record_event s (event_of v c host port o.via o.rule false e o.dialed.duration_ms)
      ++ writes v.failed ∷ []
  | none ↦
      record_event s (event_of v c host port o.via o.rule true [] o.dialed.duration_ms)
      ++ (writes v.connected ∷ (if c.answer_fails then [] else relays ∷ []))
]

-- The end of `handle` and of `handleHTTP`, from the test of the block list on.
unfoldable pub connect : Voice → Server → Client → Text → ℕ → List Action
connect v s c host port =
    let found = match_checker s.block host in
    let o = dial_target s host (join_host_port host (itoa port)) in
    if found.0
    then record_event s (event_of v c host port (codes "drop") found.1 false (codes "blocked") 0)
      ++ writes v.blocked ∷ []
    else o.dial ∷ after_dial v s c host port o
