-- ===== src/Bypass/Rule.antt =====
-- internal/bypass/rule.go: one rule and its parser. Error texts are constructors.

pub mod Hostname
pub mod Canonical
pub mod Addresses
use outline_gate.Prelude.{
  ℕ, ◌+◌, ◌*◌, Bool, true, false, not, ◌&&◌, ◌||◌, List, [], ◌∷◌, ◌++◌, Option, some, none, ltb,
  leb, ◌==◌, if◌then◌else◌, length, drop, any, all,
}
use outline_gate.Prelude.Result.{Result, ok, err}
use outline_gate.Go.Text.{
  Text, codes, is_empty, byte_len, trim_space, has_prefix, trim_prefix, has_suffix, trim_suffix,
  contains, contains_pair, split,
}
use outline_gate.Go.Unicode.{Unicode, lower}
use outline_gate.Go.Ip.{IpNet, is_nil, to4, host_net}
use outline_gate.Go.IpParse.{parse_ip, parse_cidr}
use outline_gate.Go.IpString.{ip_string, net_string}

-- `Kind`.
pub data Kind : Type 0 where
  ip cidr domain suffix : Kind

pub record Rule : Type 0 where
  pub raw : Text
  pub kind : Kind
  pub net : Option IpNet
  pub host : Text

-- The errors of `validateHostname`.
pub data HostError : Type 0 where
  empty_hostname too_long bad_form : HostError
  bad_label hyphen bad_character : Text → HostError

-- The errors of `ParseRule`.
pub data RuleError : Type 0 where
  empty_rule has_whitespace invalid_cidr : RuleError
  invalid_suffix invalid_domain : HostError → RuleError

abbrev pub hyphen_char : ℕ
hyphen_char = b'-'

abbrev pub dot : Text
dot = b'.' ∷ []

abbrev first_is_hyphen : Text → Bool
first_is_hyphen [] = false
first_is_hyphen (c ∷ s) = c == hyphen_char

abbrev last_is_hyphen : Text → Bool
last_is_hyphen [] = false
last_is_hyphen (c ∷ []) = c == hyphen_char
last_is_hyphen (c ∷ d ∷ s) = last_is_hyphen (d ∷ s)

abbrev pub label_char : Unicode → ℕ → Bool
label_char u c = u.is_letter c || u.is_digit c || c == hyphen_char

-- The body of the loop over the labels.
unfoldable pub check_label : Unicode → Text → Option HostError
check_label u label =
    if is_empty label || ltb 63 (byte_len label)
    then some (bad_label label)
    else if first_is_hyphen label || last_is_hyphen label
    then some (hyphen label)
    else if all (label_char u) label
    then none
    else some (bad_character label)

unfoldable pub check_labels : Unicode → List Text → Option HostError
check_labels u [] = none
check_labels u (l ∷ ls) = elim (check_label u l) [ some e ↦ some e | none ↦ check_labels u ls ]

-- `validateHostname`; `none` is a nil error. `Split` never gives an empty list.
unfoldable pub validate_hostname : Unicode → Text → Option HostError
validate_hostname u host =
    if is_empty host
    then some empty_hostname
    else if ltb 253 (byte_len host)
    then some too_long
    else if has_prefix host dot || has_suffix host dot || contains_pair b'.' host
    then some bad_form
    else check_labels u (split b'.' host)

abbrev pub star_dot : Text
star_dot = codes "*."

-- The end of `ParseRule`, for a text in lower case that is no address.
abbrev pub parse_name : Unicode → Text → Result RuleError Rule
parse_name u low =
    if has_prefix low star_dot
    then (let apex = trim_suffix (trim_prefix low star_dot) dot in
        elim (validate_hostname u apex) [
          | some e ↦ err (invalid_suffix e)
          | none ↦ ok (record { raw = star_dot ++ apex; kind = suffix; net = none; host = apex })
        ])
    else let host = lower u (trim_suffix low dot) in
      elim (validate_hostname u host) [
        | some e ↦ err (invalid_domain e)
        | none ↦ ok (record { raw = host; kind = domain; net = none; host = host })
      ]

-- `ParseRule` behind the trimming.
unfoldable pub parse_trimmed : Unicode → Text → Result RuleError Rule
parse_trimmed u s =
    if is_empty s
    then err empty_rule
    else if contains s b' ' || contains s b'\t'
    then err has_whitespace
    else if contains s b'/'
    then elim (parse_cidr s) [
      | none ↦ err invalid_cidr
      | some n ↦ ok (record { raw = net_string n; kind = cidr; net = some n; host = [] })
    ]
    else let addr = parse_ip s in
      if not (is_nil addr)
      then (let short = if is_nil (to4 addr) then addr else to4 addr in
          ok (record { raw = ip_string short; kind = ip; net = some (host_net short); host = [] }))
      else parse_name u (lower u s)

-- `ParseRule`.
unfoldable pub parse_rule : Unicode → Text → Result RuleError Rule
parse_rule u s = parse_trimmed u (trim_space s)

-- `NormalizeHost`.
unfoldable pub normalize_host : Unicode → Text → Text
normalize_host u host = lower u (trim_suffix (trim_space host) dot)
