-- ===== src/Proxy/Http.antt =====
-- internal/proxy/http_connect.go: the CONNECT method of HTTP on the SOCKS port. `http.ReadRequest` is
-- Go's parser of HTTP; what it reads from a client's bytes is the argument `Parser`.
use outline_gate.Prelude.{suc, not, List, [], ◌∷◌, Option, some, none, if◌then◌else◌, ℤ, pos}
use outline_gate.Go.Text.{Text, codes, text_eq, is_empty, trim_space}
use outline_gate.Go.Ip.{Bytes, is_nil, to4}
use outline_gate.Go.IpParse.{parse_ip}
use outline_gate.Go.IpString.{ip_string}
use outline_gate.Go.HostPort.{split_host_port, atoi}
use outline_gate.Proxy.Conn.{Action, writes, Server, Client, Voice, connect}

-- The fields of `http.Request` that are read.
pub record HttpRequest : Type 0 where
  pub method : Text
  pub host : Text
  pub url_host : Text

abbrev pub Parser : Type 0
Parser = Bytes → Option HttpRequest

abbrev pub http_voice : Voice
http_voice = record {
  proto = codes "http";
  blocked = codes "HTTP/1.1 403 Forbidden\r\nConnection: close\r\n\r\n";
  failed = codes "HTTP/1.1 502 Bad Gateway\r\nConnection: close\r\n\r\n";
  connected = codes "HTTP/1.1 200 Connection Established\r\n\r\n";
}

abbrev pub not_allowed : Bytes
not_allowed = codes "HTTP/1.1 405 Method Not Allowed\r\nConnection: close\r\n\r\n"

abbrev pub bad_request : Bytes
bad_request = codes "HTTP/1.1 400 Bad Request\r\nConnection: close\r\n\r\n"

-- The host and the text of the port; the port defaults to that of HTTPS.
abbrev pub host_and_port : Text → Text × Text
host_and_port hostport = elim (split_host_port hostport) [
  | none ↦ (trim_space hostport, codes "443")
  | some w ↦ w
]

-- An IPv4 address in its usual form.
abbrev pub shorten : Text → Text
shorten host =
    let ip = parse_ip host in
    if is_nil ip then host else if is_nil (to4 ip) then host else ip_string (to4 ip)

abbrev pub connect_to : Server → Client → Text → Option ℤ → List Action
connect_to s c host (some (pos (suc port))) = connect http_voice s c (shorten host) (suc port)
connect_to s c host _ = writes bad_request ∷ []

abbrev pub answer_request : Server → Client → HttpRequest → List Action
answer_request s c r =
    let hostport = if is_empty r.host then r.url_host else r.host in
    let (host, port) = host_and_port hostport in
    if not (text_eq r.method (codes "CONNECT"))
    then writes not_allowed ∷ []
    else connect_to s c host (atoi port)

-- `handleHTTP`.
unfoldable pub handle_http : Parser → Server → Client → List Action
handle_http read s c = elim (read c.input) [ none ↦ [] | some r ↦ answer_request s c r ]
