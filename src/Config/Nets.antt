-- ===== src/Config/Nets.antt =====
-- internal/config/config.go: networks written as text, and the default ones.
use outline_gate.Prelude.{◌≡◌, refl, List, [], ◌∷◌, ◌++◌, Option, some, none, if◌then◌else◌}
use outline_gate.Prelude.Result.{Result, ok, err}
use outline_gate.Go.Text.{Text, codes, is_empty, trim_space, contains}
use outline_gate.Go.Ip.{IpNet, is_nil, to4, host_net, cidr_mask}
use outline_gate.Go.IpParse.{parse_ip, parse_cidr}
use outline_gate.Go.IpString.{net_string}
use outline_gate.Bypass.Matcher.{seen_before}

pub data NetError : Type 0 where
  empty_cidr bad_cidr bad_ip : NetError

-- `ParseCIDROrIP`.
unfoldable pub parse_cidr_or_ip : Text → Result NetError IpNet
parse_cidr_or_ip text =
    let s = trim_space text in
    let ip = parse_ip s in
    if is_empty s
    then err empty_cidr
    else if contains s b'/'
    then elim (parse_cidr s) [ none ↦ err bad_cidr | some n ↦ ok n ]
    else if is_nil ip
    then err bad_ip
    else ok (host_net (if is_nil (to4 ip) then ip else to4 ip))

abbrev pub cons_net :
    Result NetError IpNet → Result NetError (List IpNet) → Result NetError (List IpNet)
cons_net (err e) rest = err e
cons_net (ok n) (err e) = err e
cons_net (ok n) (ok ns) = ok (n ∷ ns)

-- `parseCIDRs`: the first error, or the networks in order.
unfoldable pub parse_cidrs : List Text → Result NetError (List IpNet)
parse_cidrs [] = ok []
parse_cidrs (s ∷ ss) = cons_net (parse_cidr_or_ip s) (parse_cidrs ss)

abbrev pub default_texts : List Text
default_texts =
    codes "0.0.0.0/8"
    ∷ codes "10.0.0.0/8"
    ∷ codes "127.0.0.0/8"
    ∷ codes "169.254.0.0/16"
    ∷ codes "172.16.0.0/12"
    ∷ codes "192.168.0.0/16"
    ∷ codes "224.0.0.0/4"
    ∷ codes "240.0.0.0/4"
    ∷ codes "100.64.0.0/10"
    ∷ []

-- `DefaultBypassCIDRs`; `none` is its panic.
unfoldable pub default_bypass_cidrs : Option (List IpNet)
default_bypass_cidrs = elim (parse_cidrs default_texts) [ err e ↦ none | ok ns ↦ some ns ]

-- `mergeIPNets`: a network is left out if its text has occurred.
unfoldable pub merge_from : List Text → List IpNet → List IpNet
merge_from seen [] = []
merge_from seen (n ∷ ns) =
    let k = net_string n in
    let skipped = merge_from seen ns in
    let kept = merge_from (k ∷ seen) ns in if seen_before seen k then skipped else n ∷ kept

unfoldable pub merge_ip_nets : List IpNet → List IpNet → List IpNet
merge_ip_nets a b = merge_from [] (a ++ b)

abbrev pub default_nets : List IpNet
default_nets =
    record { ip = 0 ∷ 0 ∷ 0 ∷ 0 ∷ []; mask = 255 ∷ 0 ∷ 0 ∷ 0 ∷ [] }
    ∷ record { ip = 10 ∷ 0 ∷ 0 ∷ 0 ∷ []; mask = 255 ∷ 0 ∷ 0 ∷ 0 ∷ [] }
    ∷ record { ip = 127 ∷ 0 ∷ 0 ∷ 0 ∷ []; mask = 255 ∷ 0 ∷ 0 ∷ 0 ∷ [] }
    ∷ record { ip = 169 ∷ 254 ∷ 0 ∷ 0 ∷ []; mask = 255 ∷ 255 ∷ 0 ∷ 0 ∷ [] }
    ∷ record { ip = 172 ∷ 16 ∷ 0 ∷ 0 ∷ []; mask = 255 ∷ 240 ∷ 0 ∷ 0 ∷ [] }
    ∷ record { ip = 192 ∷ 168 ∷ 0 ∷ 0 ∷ []; mask = 255 ∷ 255 ∷ 0 ∷ 0 ∷ [] }
    ∷ record { ip = 224 ∷ 0 ∷ 0 ∷ 0 ∷ []; mask = 240 ∷ 0 ∷ 0 ∷ 0 ∷ [] }
    ∷ record { ip = 240 ∷ 0 ∷ 0 ∷ 0 ∷ []; mask = 240 ∷ 0 ∷ 0 ∷ 0 ∷ [] }
    ∷ record { ip = 100 ∷ 64 ∷ 0 ∷ 0 ∷ []; mask = 255 ∷ 192 ∷ 0 ∷ 0 ∷ [] }
    ∷ []

-- The default networks parse: there is no panic.
pub default_bypass_cidrs_lem : default_bypass_cidrs ≡ some default_nets
unfolding default_bypass_cidrs parse_cidrs parse_cidr_or_ip parse_cidr parse_ip trim_space to4
    cidr_mask
default_bypass_cidrs_lem = refl
