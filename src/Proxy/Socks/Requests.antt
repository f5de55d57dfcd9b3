-- ===== src/Proxy/Socks/Requests.antt =====
-- internal/proxy/socks5.go: a well-formed CONNECT request is read as what it asks for, or refused.
use outline_gate.Prelude.{
  ℕ, ◌+◌, ◌*◌, ◌/◌, ◌%◌, ◌≡◌, refl, sym, ap, ◌∙◌, true, false, take, List, Option, some, none, [],
  ◌∷◌, ◌++◌, arith, ltb, length, drop, length-append, take-length-append,
}
use outline_gate.Go.Text.{Text}
use outline_gate.Go.Ip.{Bytes, is_nil, to4, v4_prefix}
use outline_gate.Go.IpString.{ip_string}
use outline_gate.Proxy.Conn.{Action, writes, Server, Client, connect, ip_allowed}
use outline_gate.Proxy.Http.{Parser}
use outline_gate.Proxy.Socks.{
  HostRead, handle, serve_request, read_host, connect_host, found, refused, reply, socks_voice,
}

-- The addresses of a request; an IPv6 address is its bytes.
pub data Address : Type 0 where
  ip4 : (a b c d : ℕ) → Address
  name : Text → Address
  mapped_ip4 : (a b c d : ℕ) → Address
  ip6 : Bytes → Address

-- An IPv6 address has 16 bytes, and it is none of those that stand for one of IPv4.
abbrev pub IsWhole : Address → Type 0
IsWhole (ip6 ip) = (length ip ≡ 16) × (is_nil (to4 ip) ≡ true)
IsWhole _ = Unit

-- The host that an address stands for; the server takes no plain IPv6 address.
abbrev pub host_of : Address → Option Text
host_of (ip4 a b c d) = some (ip_string (a ∷ b ∷ c ∷ d ∷ []))
host_of (name s) = some s
host_of (mapped_ip4 a b c d) = some (ip_string (a ∷ b ∷ c ∷ d ∷ []))
host_of (ip6 ip) = none

-- What an address is answered with: the common part of the two proxies, which asks the block list and
-- dials, or the reply that its kind is not supported.
abbrev pub answered : Server → Client → Option Text → ℕ → List Action
answered s c (some host) port = connect socks_voice s c host port
answered s c none port = writes (reply 8) ∷ []

-- Its kind and its bytes in a request.
abbrev pub kind_of : Address → ℕ
kind_of (ip4 a b c d) = 1
kind_of (name s) = 3
kind_of (mapped_ip4 a b c d) = 4
kind_of (ip6 ip) = 4

abbrev pub encoded : Address → Bytes → Bytes
encoded (ip4 a b c d) rest = a ∷ b ∷ c ∷ d ∷ rest
encoded (name s) rest = length s ∷ (s ++ rest)
encoded (mapped_ip4 a b c d) rest = v4_prefix ++ (a ∷ b ∷ c ∷ d ∷ rest)
encoded (ip6 ip) rest = ip ++ rest

-- Any authentication methods, a CONNECT to an address and a port, and what the client sends after it.
abbrev pub request : Bytes → ℕ → Address → ℕ → Bytes → Bytes
request methods reserved addr port rest =
    5
    ∷ length methods
    ∷ (methods
        ++ (5 ∷ 1 ∷ reserved ∷ kind_of addr ∷ encoded addr ((port / 256) ∷ (port % 256) ∷ rest)))

drop-length-append : (xs ys : Bytes) → drop (length xs) (xs ++ ys) ≡ ys
drop-length-append [] ys = refl
drop-length-append (x ∷ xs) ys = drop-length-append xs ys

long_enough : (xs ys : Bytes) → ltb (length (xs ++ ys)) (length xs) ≡ false
long_enough xs ys = ground (arith, length-append xs ys)

-- The port as its two bytes.
port_bytes : (port : ℕ) → port / 256 * 256 + port % 256 ≡ port
port_bytes port = omega arith

abbrev taken : Option Text → Bytes → HostRead
taken (some host) rest = found host rest
taken none rest = refused

read_host-encoded :
    (addr : Address) (rest : Bytes)
    → IsWhole addr
    → read_host (kind_of addr) (encoded addr rest) ≡ taken (host_of addr) rest
unfolding read_host
read_host-encoded (ip4 a b c d) rest w = refl
read_host-encoded (name s) rest w =
    rw (long_enough s rest, take-length-append s rest, drop-length-append s rest)
read_host-encoded (mapped_ip4 a b c d) rest w = rw enough (unfold to4 in refl)
  where
    enough : ltb (length (encoded (mapped_ip4 a b c d) rest)) 16 ≡ false
    enough = ground arith
read_host-encoded (ip6 ip) rest (size, plain) = rw (enough, cut, plain) refl
  where
    enough : ltb (length (ip ++ rest)) 16 ≡ false
    enough = ground (arith, size, length-append ip rest)

    cut : take 16 (ip ++ rest) ≡ ip
    cut = ap (λ n. take n (ip ++ rest)) (sym size) ∙ take-length-append ip rest

connect_host-taken :
    (s : Server) (c : Client) (host : Option Text) (port : ℕ) (rest : Bytes)
    → connect_host s c (taken host ((port / 256) ∷ (port % 256) ∷ rest)) ≡ answered s c host port
connect_host-taken s c (some host) port rest = ap (connect socks_voice s c host) (port_bytes port)
connect_host-taken s c none port rest = refl

-- A client that the allow list admits, that sends a whole CONNECT request and to which the greeting can be
-- written, whatever methods it offers, is greeted. For an address of IPv4, plain or in IPv6 form, or a name,
-- its host and port then go to the common part of the proxies, which asks the block list before it dials;
-- any other IPv6 address gets reply 8, and no dial.
pub handle-request :
    (read : Parser) (s : Server) (c : Client) (methods : Bytes) (reserved : ℕ) (addr : Address)
    (port : ℕ) (rest : Bytes)
    → ip_allowed c.ip s.allow ≡ true
    → c.greeting_fails ≡ false
    → c.input ≡ request methods reserved addr port rest
    → IsWhole addr
    → handle read s c ≡ writes (5 ∷ 0 ∷ []) ∷ answered s c (host_of addr) port
unfolding handle serve_request
handle-request read s c methods reserved addr port rest allowed greeted input whole =
    let tail =
      5 ∷ 1 ∷ reserved ∷ kind_of addr ∷ encoded addr ((port / 256) ∷ (port % 256) ∷ rest) in
    rw
      (
        allowed,
        input,
        long_enough methods tail,
        greeted,
        drop-length-append methods tail,
        read_host-encoded addr ((port / 256) ∷ (port % 256) ∷ rest) whole,
      )
      (ap (◌∷◌ (writes (5 ∷ 0 ∷ []))) (connect_host-taken s _ (host_of addr) port rest))
