-- ===== src/Proxy/Socks.antt =====
-- internal/proxy/socks5.go: one connection of the SOCKS5 server. A name of the request is bytes, each of
-- which is taken as a character: so it is for ASCII names.
pub mod Requests
pub mod Outcomes
use outline_gate.Prelude.{
  ℕ, ◌+◌, ◌*◌, Bool, true, false, not, ◌&&◌, List, [], ◌∷◌, Option, some, none, ltb, ◌==◌,
  if◌then◌else◌, length, take, drop,
}
use outline_gate.Go.Text.{Text, codes}
use outline_gate.Go.Ip.{Bytes, is_nil, to4}
use outline_gate.Go.IpString.{ip_string}
use outline_gate.Proxy.Conn.{Action, writes, Server, Client, Voice, connect, ip_allowed}
use outline_gate.Proxy.Http.{Parser, handle_http}

-- An answer with a status, and the rest of its ten bytes.
abbrev pub reply : ℕ → Bytes
reply code = 5 ∷ code ∷ 0 ∷ 1 ∷ 0 ∷ 0 ∷ 0 ∷ 0 ∷ 0 ∷ 0 ∷ []

abbrev pub socks_voice : Voice
socks_voice = record {
  proto = codes "socks";
  blocked = reply 2;
  failed = reply 5;
  connected = reply 0;
}

-- The host of a request: the stream may end in it, it may be of a kind that is refused, or it is a host
-- in front of the rest of the stream.
pub data HostRead : Type 0 where
  gone refused : HostRead
  found : Text → Bytes → HostRead

abbrev read_ip4 : Bytes → HostRead
read_ip4 (a ∷ b ∷ c ∷ d ∷ rest) = found (ip_string (a ∷ b ∷ c ∷ d ∷ [])) rest
read_ip4 _ = gone

abbrev read_name : Bytes → HostRead
read_name (l ∷ rest) = if ltb (length rest) l then gone else found (take l rest) (drop l rest)
read_name [] = gone

abbrev read_ip6 : Bytes → HostRead
read_ip6 input =
    let ip = take 16 input in
    if ltb (length input) 16
    then gone
    else if is_nil (to4 ip)
    then refused
    else found (ip_string (to4 ip)) (drop 16 input)

-- The switch on the kind of the address.
unfoldable pub read_host : ℕ → Bytes → HostRead
read_host kind input =
    if kind == 1
    then read_ip4 input
    else if kind == 3
    then read_name input
    else if kind == 4
    then read_ip6 input
    else refused

abbrev pub connect_host : Server → Client → HostRead → List Action
connect_host s c gone = []
connect_host s c refused = writes (reply 8) ∷ []
connect_host s c (found host (p ∷ q ∷ rest)) = connect socks_voice s c host (p * 256 + q)
connect_host s c (found host _) = []

-- The request, behind the greeting.
unfoldable pub serve_request : Server → Client → Bytes → List Action
serve_request s c (version ∷ command ∷ reserved ∷ kind ∷ rest) =
    if not (version == 5 && command == 1)
    then writes (reply 7) ∷ []
    else connect_host s c (read_host kind rest)
serve_request s c _ = []

abbrev pub serve_greeting : Server → Client → Bytes → List Action
serve_greeting s c (version ∷ methods ∷ rest) =
    if ltb (length rest) methods
    then []
    else writes (5 ∷ 0 ∷ [])
      ∷ (if c.greeting_fails then [] else serve_request s c (drop methods rest))
serve_greeting s c _ = []

-- By its first byte, a connection speaks SOCKS5 or HTTP.
abbrev pub serve : Parser → Server → Client → Bytes → List Action
serve read s c [] = []
serve read s c (first ∷ rest) =
    if first == 5 then serve_greeting s c (first ∷ rest) else handle_http read s c

-- `handle`.
unfoldable pub handle : Parser → Server → Client → List Action
handle read s c = if ip_allowed c.ip s.allow then serve read s c c.input else []
