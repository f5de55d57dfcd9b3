-- ===== src/Dns.antt =====
-- internal/dnsdoh/server.go: one query over UDP or TCP. The HTTPS client is an argument: what it answers
-- to a query, its status and its body, or an error. The URL that `url.Parse` gives is a record.
pub mod Answers
use outline_gate.Prelude.{
  ℕ, ◌+◌, ◌*◌, ◌/◌, ◌%◌, Bool, true, false, ◌||◌, List, [], ◌∷◌, ◌++◌, Option, some, none, ltb, leb,
  ◌==◌, if◌then◌else◌, length, take,
}
use outline_gate.Go.Text.{Text, codes, text_eq, is_empty, trim_space}
use outline_gate.Go.Unicode.{Unicode, lower}
use outline_gate.Go.Ip.{Bytes, is_nil}
use outline_gate.Go.IpParse.{parse_ip}
use outline_gate.Go.HostPort.{join_host_port, split_host_port}

abbrev pub max_message : ℕ
max_message = 4096

-- A response of HTTP: its status, and its whole body, or the error of reading it.
pub record Response : Type 0 where
  pub status : ℕ
  pub body : Option Bytes

abbrev pub Client : Type 0
Client = Bytes → Option Response

-- What is read of a body by the `LimitReader`.
abbrev pub body_of : ℕ → Option Bytes → Option Bytes
body_of status none = none
body_of status (some b) =
    let body = take max_message b in
    if status == 200 then (if ltb (length body) 12 then none else some body) else none

abbrev pub answer_of : Option Response → Option Bytes
answer_of none = none
answer_of (some r) = body_of r.status r.body

-- `resolve`; `none` is an error.
unfoldable pub resolve : Client → Bytes → Option Bytes
resolve client q = if ltb (length q) 12 then none else answer_of (client q)

-- `servfail`.
abbrev pub flag_of : Bytes → ℕ
flag_of (a ∷ b ∷ c ∷ q) = c % 2
flag_of _ = 0

abbrev pub id_of : Bytes → Bytes
id_of (a ∷ b ∷ q) = a ∷ b ∷ []
id_of _ = 0 ∷ 0 ∷ []

unfoldable pub servfail : Bytes → Bytes
servfail q = id_of q ++ (128 + flag_of q) ∷ 2 ∷ 0 ∷ 0 ∷ 0 ∷ 0 ∷ 0 ∷ 0 ∷ 0 ∷ 0 ∷ []

abbrev pub or_servfail : Bytes → Option Bytes → Bytes
or_servfail q none = servfail q
or_servfail q (some resp) = resp

-- The answer of `serveUDP` to a datagram, of which at most so many bytes are read.
abbrev pub serve_udp : Client → Bytes → Bytes
serve_udp client datagram = let q = take max_message datagram in or_servfail q (resolve client q)

-- When the steps of a TCP connection come, counted from its start: when the header and the query are
-- there, and when the two writes are made, which is after `resolve`.
pub record Times : Type 0 where
  pub header : ℕ
  pub query : ℕ
  pub first_write : ℕ
  pub second_write : ℕ

-- A read or a write works up to the deadline that `SetDeadline` sets.
abbrev pub is_late : ℕ → ℕ → Bool
is_late timeout at = leb timeout at

abbrev pub length_bytes : Bytes → Bytes
length_bytes resp = (length resp / 256 % 256) ∷ (length resp % 256) ∷ []

-- The two writes, whose errors are ignored.
abbrev pub write_frame : ℕ → Times → Bytes → Bytes
write_frame timeout t resp =
    (if is_late timeout t.first_write then [] else length_bytes resp)
    ++ (if is_late timeout t.second_write then [] else resp)

-- `handleTCP`: what is written for what the client sends.
abbrev pub answer_frame : ℕ → Times → Client → ℕ → Bytes → Bytes
answer_frame timeout t client n rest =
    let q = take n rest in
    if n == 0 || ltb max_message n || ltb (length rest) n || is_late timeout t.query
    then []
    else write_frame timeout t (or_servfail q (resolve client q))

unfoldable pub handle_tcp : ℕ → Times → Client → Bytes → Bytes
handle_tcp timeout t client (a ∷ b ∷ rest) =
    if is_late timeout t.header then [] else answer_frame timeout t client (a * 256 + b) rest
handle_tcp timeout t client _ = []

-- The parts of a parsed URL.
pub record Url : Type 0 where
  pub scheme : Text
  pub hostname : Text
  pub port : Text

-- `bootstrapAddr`.
unfoldable pub bootstrap_addr : Unicode → Url → Text
bootstrap_addr u url =
    let port = if is_empty url.port then codes "443" else url.port in
    let name = lower u url.hostname in
    if is_nil (parse_ip url.hostname)
    then (if text_eq name (codes "cloudflare-dns.com") || text_eq name (codes "one.one.one.one")
        then join_host_port (codes "1.1.1.1") port
        else if text_eq name (codes "dns.google")
        then join_host_port (codes "8.8.8.8") port
        else if text_eq name (codes "dns.quad9.net") || text_eq name (codes "dns11.quad9.net")
        then join_host_port (codes "9.9.9.9") port
        else join_host_port url.hostname port)
    else join_host_port url.hostname port

-- `initHTTP`: the address that every connection of the client goes to, or an error.
abbrev pub checked_addr : Text → Option (Text × Text) → Option Text
checked_addr addr none = none
checked_addr addr (some w) = some addr

unfoldable pub init_http : Unicode → Text → Option Url → Option Text
init_http u addr none = none
init_http u addr (some url) =
    let given = trim_space addr in
    let to = if is_empty given then bootstrap_addr u url else given in
    if text_eq url.scheme (codes "https") then checked_addr to (split_host_port to) else none
