-- ===== src/Go/IpParse.antt =====
-- Go's `net.ParseIP` and `net.ParseCIDR`, as package netip reads addresses.
use outline_gate.Prelude.{
  ℕ, zero, suc, ◌+◌, ◌-◌, ◌*◌, ◌/◌, ◌%◌, Bool, true, false, not, ◌&&◌, ◌||◌, List, [], ◌∷◌, ◌++◌,
  Option, some, none, ltb, leb, ◌==◌, if◌then◌else◌, length, drop, take, replicate,
}
use outline_gate.Go.Text.{Text, split, contains}
use outline_gate.Go.Ip.{Bytes, IpAddr, IpNet, v4_prefix, cidr_mask, ip_mask}

infixl 5 ◌>>=◌
abbrev ◌>>=◌ {ℓ κ} : {A : Type ℓ} {B : Type κ} → Option A → (A → Option B) → Option B
none >>= f = none
some a >>= f = f a

abbrev pub is_dec : ℕ → Bool
is_dec c = leb b'0' c && leb c b'9'

-- The digits of one octet behind the value read so far; `fresh` says that no digit was read yet.
unfoldable pub octet_from : Bool → ℕ → Text → Option ℕ
octet_from fresh val [] = if fresh then none else some val
octet_from fresh val (c ∷ s) =
    let next = val * 10 + (c - b'0') in
    let rest = octet_from false next s in
    if not (is_dec c) || (not fresh && val == 0) || ltb 255 next then none else rest

abbrev pub octet : Text → Option ℕ
octet = octet_from true 0

abbrev pub octets : List Text → Option Bytes
octets (a ∷ b ∷ c ∷ d ∷ []) = do
  w ← octet a
  x ← octet b
  y ← octet c
  z ← octet d
  some (w ∷ x ∷ y ∷ z ∷ [])
octets _ = none

-- `parseIPv4Fields`: four octets and no leading zero.
unfoldable pub parse_ip4 : Text → Option Bytes
unfolding split octet_from
parse_ip4 s = octets (split b'.' s)

abbrev hex_digit : ℕ → Option ℕ
hex_digit c =
    if is_dec c
    then some (c - b'0')
    else if leb b'a' c && leb c b'f'
    then some (c - b'a' + 10)
    else if leb b'A' c && leb c b'F'
    then some (c - b'A' + 10)
    else none

pub record Group : Type 0 where
  pub off : ℕ
  pub acc : ℕ
  pub rest : Text

-- The digits of one group, at most four; `none` for a fifth.
hex_group : ℕ → ℕ → Text → Option Group
hex_group off acc [] = some (record { off = off; acc = acc; rest = [] })
hex_group off acc (c ∷ s) = elim (hex_digit c) [
  | none ↦ some (record { off = off; acc = acc; rest = c ∷ s })
  | some d ↦ if ltb 3 off then none else hex_group (off + 1) (acc * 16 + d) s
]

pub record Partial : Type 0 where
  pub bytes : Bytes
  pub ellipsis : Option ℕ
  pub rest : Text

abbrev starts_colon : Text → Bool
starts_colon (c ∷ s) = c == b':'
starts_colon [] = false

abbrev starts_dot : Text → Bool
starts_dot (c ∷ s) = c == b'.'
starts_dot [] = false

-- Behind the digits of a group: the end, or a colon and more, with the ellipsis if it stands here.
after_group : Bytes → Option ℕ → Text → Option (Partial × Bool)
after_group out ell [] = some (record { bytes = out; ellipsis = ell; rest = [] }, true)
after_group out ell (c ∷ []) = none
after_group out ell (c ∷ d ∷ s) =
    if not (c == b':')
    then none
    else if d == b':'
    then elim ell [
      | some e ↦ none
      | none ↦ some (record { bytes = out; ellipsis = some (length out); rest = s }, length s == 0)
    ]
    else some (record { bytes = out; ellipsis = ell; rest = d ∷ s }, false)

abbrev is_none {ℓ} : {A : Type ℓ} → Option A → Bool
is_none none = true
is_none (some a) = false

-- The loop of `parseIPv6`, on one round for each group that is left.
groups : ℕ → Bytes → Option ℕ → Text → Option Partial
groups zero out ell s = some (record { bytes = out; ellipsis = ell; rest = s })
groups (suc left) out ell s = elim (hex_group 0 0 s) [
  | none ↦ none
  | some g ↦
      if g.off == 0
      then none
      else if starts_dot g.rest
      then (if (is_none ell && not (length out == 12)) || ltb 12 (length out)
          then none
          else do v4 ← parse_ip4 s; some (record { bytes = out ++ v4; ellipsis = ell; rest = [] }))
      else elim (after_group (out ++ (g.acc / 256) ∷ (g.acc % 256) ∷ []) ell g.rest) [
        | none ↦ none
        | some (p, done) ↦ if done then some p else groups left p.bytes p.ellipsis p.rest
      ]
]

-- The ellipsis stands for at least one group of zeros.
expand : Partial → Option Bytes
expand p =
    if not (length p.rest == 0)
    then none
    else if ltb (length p.bytes) 16
    then elim p.ellipsis [
      | none ↦ none
      | some e ↦ some (take e p.bytes ++ (replicate (16 - length p.bytes) 0 ++ drop e p.bytes))
    ]
    else if is_none p.ellipsis
    then some p.bytes
    else none

unfoldable pub parse_ip6 : Text → Option Bytes
unfolding hex_group after_group groups expand parse_ip4
parse_ip6 s =
    if starts_colon s && starts_colon (drop 1 s)
    then (if length s == 2
        then some (replicate 16 0)
        else do p ← groups 8 [] (some 0) (drop 2 s); expand p)
    else do p ← groups 8 [] none s; expand p

-- `netip.ParseAddr`, which goes by the first of the two marks; an address with a zone is refused by both
-- callers. The result has 4 or 16 bytes.
unfoldable pub first_mark : Text → Option ℕ
first_mark [] = none
first_mark (c ∷ s) = if c == b'.' || c == b':' then some c else first_mark s

unfoldable pub parse_addr : Text → Option Bytes
unfolding first_mark parse_ip6 parse_ip4
parse_addr s = if contains s b'%' then none else elim (first_mark s) [
  | none ↦ none
  | some m ↦ if m == b'.' then parse_ip4 s else parse_ip6 s
]

-- `Addr.As16`.
abbrev pub as16 : Bytes → Bytes
as16 b = if length b == 4 then v4_prefix ++ b else b

-- `net.ParseIP`; `nil` for what is no address.
unfoldable pub parse_ip : Text → IpAddr
unfolding parse_addr
parse_ip s = elim (parse_addr s) [ none ↦ [] | some b ↦ as16 b ]

-- `dtoi` over the whole of a text.
dtoi_from : ℕ → Text → Option ℕ
dtoi_from n [] = some n
dtoi_from n (c ∷ s) =
    let next = n * 10 + (c - b'0') in
    let rest = dtoi_from next s in if not (is_dec c) || leb 0xff_ffff next then none else rest

dtoi : Text → Option ℕ
dtoi [] = none
dtoi (c ∷ s) = dtoi_from 0 (c ∷ s)

before_slash : Text → Text
before_slash [] = []
before_slash (c ∷ s) = if c == b'/' then [] else c ∷ before_slash s

after_slash : Text → Text
after_slash [] = []
after_slash (c ∷ s) = if c == b'/' then s else after_slash s

-- The network that `net.ParseCIDR` returns.
unfoldable pub parse_cidr : Text → Option IpNet
unfolding parse_addr dtoi dtoi_from before_slash after_slash cidr_mask ip_mask
parse_cidr s = if not (contains s b'/') then none else do
  b ← parse_addr (before_slash s)
  n ← dtoi (after_slash s)
  let m = cidr_mask n (length b)
  if ltb (8 * length b) n then none else some (record { ip = ip_mask (as16 b) m; mask = m })
