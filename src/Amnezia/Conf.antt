-- ===== src/Amnezia/Conf.antt =====
-- internal/amnezia/conf.go: `ParseConf` and what is read from a parsed configuration. The string fields
-- of `Config` are a function of their names (`Field`); `Name`, `ServiceType` and `ServiceProtocol`, which
-- only `DecodeVPNURI` sets, are left out.
pub mod Documents
use outline_gate.Prelude.{
  ℕ, Bool, true, false, not, ◌&&◌, ◌||◌, List, [], ◌∷◌, ◌++◌, Option, some, none, ◌==◌,
  if◌then◌else◌, length, take, drop, ◌-◌,
}
use outline_gate.Prelude.Result.{Result, ok, err}
use outline_gate.Go.Text.{
  Text, codes, text_eq, is_empty, trim_space, has_prefix, has_suffix, split, contains,
}
use outline_gate.Go.Unicode.{Unicode, lower}
use outline_gate.Go.Ip.{IpAddr, IpNet, is_nil, to4, host_net}
use outline_gate.Go.IpParse.{parse_ip, parse_cidr}
use outline_gate.Go.HostPort.{cut, split_host_port}

pub data Field : Type 0 where
  address private_key peer_public_key preshared_key endpoint persistent_keepalive : Field
  jc jmin jmax s1 s2 s3 s4 h1 h2 h3 h4 header_protection_key : Field
  rekey_after_time rekey_timeout reject_after_time keepalive_timeout max_handshake_attempts : Field
  content_padding_addition : Field

abbrev pub number : Field → ℕ
number address = 0
number private_key = 1
number peer_public_key = 2
number preshared_key = 3
number endpoint = 4
number persistent_keepalive = 5
number jc = 6
number jmin = 7
number jmax = 8
number s1 = 9
number s2 = 10
number s3 = 11
number s4 = 12
number h1 = 13
number h2 = 14
number h3 = 15
number h4 = 16
number header_protection_key = 17
number rekey_after_time = 18
number rekey_timeout = 19
number reject_after_time = 20
number keepalive_timeout = 21
number max_handshake_attempts = 22
number content_padding_addition = 23

-- `Config`.
pub record Config : Type 0 where
  pub text : Field → Text
  pub dns : List Text
  pub allowed_ips : List Text

abbrev pub empty_config : Config
empty_config = record { text = λ f. []; dns = []; allowed_ips = [] }

-- The assignment to a string field.
abbrev pub put : Field → Text → Config → Config
put f v c = record c { text = λ g. if number g == number f then v else c.text g }

abbrev nonblank : List Text → List Text
nonblank [] = []
nonblank (p ∷ ps) = if is_empty (trim_space p) then nonblank ps else trim_space p ∷ nonblank ps

-- `splitCSV` and `firstCSV`.
unfoldable pub split_csv : Text → List Text
split_csv v = nonblank (split b',' v)

abbrev pub first_of : List Text → Text
first_of [] = []
first_of (p ∷ ps) = p

abbrev pub first_csv : Text → Text
first_csv v = first_of (split_csv v)

-- What a key stands for: a string field, or one of the lists.
pub data Slot : Type 0 where
  field : Field → Slot
  dns_list ip_list : Slot

-- The keys of the two switches.
abbrev pub interface_keys : List (Text × Slot)
interface_keys =
    (codes "address", field address)
    ∷ (codes "dns", dns_list)
    ∷ (codes "privatekey", field private_key)
    ∷ (codes "jc", field jc)
    ∷ (codes "jmin", field jmin)
    ∷ (codes "jmax", field jmax)
    ∷ (codes "s1", field s1)
    ∷ (codes "s2", field s2)
    ∷ (codes "s3", field s3)
    ∷ (codes "s4", field s4)
    ∷ (codes "h1", field h1)
    ∷ (codes "h2", field h2)
    ∷ (codes "h3", field h3)
    ∷ (codes "h4", field h4)
    ∷ (codes "headerprotectionkey", field header_protection_key)
    ∷ (codes "rekeyaftertime", field rekey_after_time)
    ∷ (codes "rekeytimeout", field rekey_timeout)
    ∷ (codes "rejectaftertime", field reject_after_time)
    ∷ (codes "keepalivetimeout", field keepalive_timeout)
    ∷ (codes "maxhandshakeattempts", field max_handshake_attempts)
    ∷ (codes "contentpaddingaddition", field content_padding_addition)
    ∷ []

abbrev pub peer_keys : List (Text × Slot)
peer_keys =
    (codes "publickey", field peer_public_key)
    ∷ (codes "presharedkey", field preshared_key)
    ∷ (codes "endpoint", field endpoint)
    ∷ (codes "allowedips", ip_list)
    ∷ (codes "persistentkeepalive", field persistent_keepalive)
    ∷ []

abbrev pub find_key : Text → List (Text × Slot) → Option Slot
find_key k [] = none
find_key k ((j, s) ∷ ks) = if text_eq k j then some s else find_key k ks

-- The slot of a key in a section.
unfoldable pub slot_of : Text → Text → Option Slot
slot_of section k =
    if text_eq section (codes "interface")
    then find_key k interface_keys
    else if text_eq section (codes "peer")
    then find_key k peer_keys
    else none

abbrev pub assign : Option Slot → Text → Config → Config
assign none v c = c
assign (some (field address)) v c = put address (first_csv v) c
assign (some (field f)) v c = put f v c
assign (some dns_list) v c = record c { dns = split_csv v }
assign (some ip_list) v c = record c { allowed_ips = split_csv v }

-- What the loop carries: the section, and the configuration so far.
pub record Reading : Type 0 where
  pub section : Text
  pub config : Config

abbrev pub set_entry : Unicode → Reading → Option (Text × Text) → Reading
set_entry u r none = r
set_entry u r (some (k, v)) = record r {
  config = assign (slot_of r.section (lower u (trim_space k))) (trim_space v) r.config;
}

-- `line[1 : len(line)-1]`.
abbrev pub inner : Text → Text
inner line = take (length line - 2) (drop 1 line)

-- The body of the loop, on a trimmed line.
unfoldable pub read_line : Unicode → Text → Reading → Reading
read_line u line r =
    if is_empty line || has_prefix line (codes "#") || has_prefix line (codes ";")
    then r
    else if has_prefix line (codes "[") && has_suffix line (codes "]")
    then record r { section = lower u (trim_space (inner line)) }
    else set_entry u r (cut b'=' line)

unfoldable pub read_lines : Unicode → List Text → Reading → Reading
read_lines u [] r = r
read_lines u (l ∷ ls) r = read_lines u ls (read_line u (trim_space l) r)

pub data ConfError : Type 0 where
  missing_fields missing_address invalid_cidr invalid_ip : ConfError

-- The checks and the default behind the loop.
abbrev pub finish : Config → Result ConfError Config
finish c =
    if is_empty (c.text private_key)
      || is_empty (c.text peer_public_key)
      || is_empty (c.text endpoint)
    then err missing_fields
    else ok
        (if length c.allowed_ips == 0 then record c { allowed_ips = codes "0.0.0.0/0" ∷ [] } else c)

-- `ParseConf`.
unfoldable pub parse_conf : Unicode → Text → Result ConfError Config
parse_conf u s =
    finish (read_lines u (split b'\n' s) (record { section = []; config = empty_config })).config

-- `EndpointIP`.
abbrev host_or_all : Text → Option (Text × Text) → Text
host_or_all s none = s
host_or_all s (some w) = w.0

unfoldable pub endpoint_ip : Config → IpAddr
endpoint_ip c =
    let s = trim_space (c.text endpoint) in
    let ip = parse_ip (host_or_all s (split_host_port s)) in
    if is_nil ip then [] else if is_nil (to4 ip) then ip else to4 ip

-- `InterfaceAddr`: the network that it returns.
unfoldable pub interface_net : Config → Result ConfError IpNet
interface_net c =
    let s = trim_space (c.text address) in
    let ip = parse_ip s in
    if is_empty s
    then err missing_address
    else if contains s b'/'
    then elim (parse_cidr s) [ none ↦ err invalid_cidr | some n ↦ ok n ]
    else if is_nil ip
    then err invalid_ip
    else ok (host_net (if is_nil (to4 ip) then ip else to4 ip))
