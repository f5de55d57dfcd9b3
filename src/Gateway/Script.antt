-- ===== src/Gateway/Script.antt =====
-- internal/gateway/gateway.go: the scripts for nft. A script is the list of its lines, each of which ends
-- with a newline; a write to a `strings.Builder` is an append.
use outline_gate.Prelude.{
  ℕ, suc, Bool, List, [], ◌∷◌, ◌++◌, map, Option, some, none, if◌then◌else◌, ℤ, pos,
}
use outline_gate.Prelude.Result.{Result, ok, err}
use outline_gate.Go.Text.{Text, codes, text_eq, is_empty, trim_space}
use outline_gate.Go.Ip.{IpNet, is_nil, to4}
use outline_gate.Go.IpString.{net_string, itoa}
use outline_gate.Go.Quote.{quote}
use outline_gate.Config.{mode_include}
use outline_gate.Config.Nets.{default_bypass_cidrs}
use outline_gate.Routing.{Engine, bypass_nets}
use outline_gate.Bypass.Matcher.{seen_before}

-- The fields of `config.Config` that the scripts depend on.
pub record Settings : Type 0 where
  pub routing_mode : Text
  pub transproxy_port : ℤ
  pub output_enable : Bool
  pub amnezia_iface : Text
  pub lan_interface : Text

abbrev pub script_text : List Text → Text
script_text [] = []
script_text (l ∷ ls) = l ++ (b'\n' ∷ script_text ls)

-- A line about an element of a set.
abbrev pub element_line : Text → Text → Text
element_line set s =
    codes "add element inet outline_gate " ++ (set ++ (codes " { " ++ (s ++ codes " }")))

-- The loop of `addIPv4SetElements`: the texts of the networks of IPv4, each once.
unfoldable pub elements_from : List Text → List IpNet → List Text
elements_from seen [] = []
elements_from seen (n ∷ ns) =
    let s = net_string n in
    let skipped = elements_from seen ns in
    let kept = elements_from (s ∷ seen) ns in
    if is_nil (to4 n.ip) then skipped else if seen_before seen s then skipped else s ∷ kept

-- `addIPv4SetElements`.
abbrev pub add_elements : Text → List IpNet → List Text
add_elements set nets = map (element_line set) (elements_from [] nets)

-- The loop over the default networks, and those networks; no panic arises (Config.Nets).
unfoldable pub private_elements : List IpNet → List Text
private_elements [] = []
private_elements (n ∷ ns) =
    let rest = private_elements ns in
    if is_nil (to4 n.ip) then rest else element_line (codes "private") (net_string n) ∷ rest

abbrev or_nil : Option (List IpNet) → List IpNet
or_nil none = []
or_nil (some ns) = ns

-- The script of `patchSetsLocked`.
unfoldable pub patch_script : Engine → List Text
patch_script e =
    (codes "flush set inet outline_gate bypass" ∷ add_elements (codes "bypass") (bypass_nets e))
    ++ (codes "flush set inet outline_gate tunnel" ∷ add_elements (codes "tunnel") e.tunnel_nets)

-- A line for an interface, if there is one.
abbrev pub iface_line : (ℕ → Bool) → Text → Text → Text → List Text
iface_line print before iface behind =
    let name = trim_space iface in
    if is_empty name then [] else (before ++ (quote print name ++ behind)) ∷ []

-- `appendOutputRedirect`.
unfoldable pub output_redirect : (ℕ → Bool) → Settings → ℕ → List Text
output_redirect print cfg port =
    ((codes "add rule inet outline_gate output tcp dport " ++ (itoa port ++ codes " return")) ∷ [])
    ++ (iface_line print (codes "add rule inet outline_gate output oifname ") cfg.amnezia_iface
          (codes " return")
        ++ (codes "add rule inet outline_gate output ip saddr @private return"
            ∷ codes "add rule inet outline_gate output ip daddr @private return"
            ∷ (if text_eq cfg.routing_mode mode_include
                then (codes
                      "add rule inet outline_gate output ip daddr @tunnel ip protocol tcp redirect to :"
                    ++ itoa port)
                  ∷ []
                else codes "add rule inet outline_gate output ip daddr @bypass return"
                  ∷ (codes "add rule inet outline_gate output ip protocol tcp redirect to :"
                      ++ itoa port)
                  ∷ [])))

-- What is written only if the host's own traffic is redirected too.
abbrev pub output_lines : (ℕ → Bool) → Settings → ℕ → List Text
output_lines print cfg port =
    output_redirect print cfg port
    ++ (codes
          "add chain inet outline_gate filter_out { type filter hook output priority filter; policy accept; }"
        ∷ codes "add rule inet outline_gate filter_out ip daddr @private return"
        ∷ codes "add rule inet outline_gate filter_out ip daddr @bypass return"
        ∷ (iface_line print (codes "add rule inet outline_gate filter_out oifname ")
              cfg.amnezia_iface (codes " return")
            ++ codes "add rule inet outline_gate filter_out udp dport { 443, 5228 } reject" ∷ []))

-- The table, its sets and their elements.
abbrev pub set_lines : Engine → List Text
set_lines e =
    (codes "add table inet outline_gate"
      ∷ codes "add set inet outline_gate private { type ipv4_addr; flags interval; }"
      ∷ private_elements (or_nil default_bypass_cidrs))
    ++ ((codes "add set inet outline_gate bypass { type ipv4_addr; flags interval; }"
          ∷ add_elements (codes "bypass") (bypass_nets e))
        ++ (codes "add set inet outline_gate tunnel { type ipv4_addr; flags interval; }"
            ∷ add_elements (codes "tunnel") e.tunnel_nets))

-- The chains of the nat hooks, and the rules of the first.
abbrev pub prerouting_lines : ℕ → List Text
prerouting_lines port =
    codes
      "add chain inet outline_gate prerouting { type nat hook prerouting priority dstnat; policy accept; }"
    ∷ codes
        "add chain inet outline_gate output { type nat hook output priority dstnat; policy accept; }"
    ∷ (codes "add rule inet outline_gate prerouting tcp dport " ++ (itoa port ++ codes " return"))
    ∷ codes "add rule inet outline_gate prerouting ip daddr @private return"
    ∷ (codes "add rule inet outline_gate prerouting ip protocol tcp redirect to :" ++ itoa port)
    ∷ []

abbrev pub forward_lines : List Text
forward_lines =
    codes
      "add chain inet outline_gate filter_fwd { type filter hook forward priority filter; policy accept; }"
    ∷ codes "add rule inet outline_gate filter_fwd ip daddr @private return"
    ∷ codes "add rule inet outline_gate filter_fwd udp dport { 443, 5228 } reject"
    ∷ []

abbrev pub masquerade_lines : (ℕ → Bool) → Settings → List Text
masquerade_lines print cfg =
    (codes
        "add chain inet outline_gate postrouting { type nat hook postrouting priority srcnat; policy accept; }"
      ∷ codes "add rule inet outline_gate postrouting ip saddr 127.0.0.0/8 return"
      ∷ codes "add rule inet outline_gate postrouting oifname \"lo\" return"
      ∷ [])
    ++ (iface_line print (codes "add rule inet outline_gate postrouting oifname ") cfg.amnezia_iface
          (codes " return")
        ++ (if is_empty (trim_space cfg.lan_interface)
            then codes "add rule inet outline_gate postrouting masquerade" ∷ []
            else iface_line print (codes "add rule inet outline_gate postrouting oifname ")
                cfg.lan_interface (codes " masquerade")))

-- The body of `buildNFTScript`, for an engine and a port.
unfoldable pub full_script : (ℕ → Bool) → Settings → Engine → ℕ → List Text
full_script print cfg e port =
    set_lines e
    ++ (prerouting_lines port
        ++ ((if cfg.output_enable then output_lines print cfg port else [])
            ++ (forward_lines ++ masquerade_lines print cfg)))

abbrev pub no_engine : Text
no_engine = codes "routing engine is nil"

abbrev pub script_for : (ℕ → Bool) → Settings → Option Engine → ℤ → Result Text (List Text)
script_for print cfg none port = err no_engine
script_for print cfg (some e) (pos (suc n)) = ok (full_script print cfg e (suc n))
script_for print cfg (some e) _ = err (codes "invalid transproxy port")

-- `buildNFTScript`, and `DryRunScript`, which is the same.
abbrev pub build_script : (ℕ → Bool) → Settings → Option Engine → Result Text (List Text)
build_script print cfg engine = script_for print cfg engine cfg.transproxy_port
