-- ===== src/Tests/Net.antt =====
-- Addresses: what Go prints and parses.
use outline_gate.Prelude.{◌≡◌, refl, true, false, [], ◌∷◌, Option, some, none}
use outline_gate.Go.Text.{Text, codes}
use outline_gate.Go.Ip.{to4, net_contains, host_net, cidr_mask}
use outline_gate.Go.IpParse.{parse_ip, parse_cidr}
use outline_gate.Go.IpString.{ip_string, net_string}

print : Text → Text
unfolding parse_ip ip_string
print s = ip_string (parse_ip s)

print_cidr : Text → Option Text
unfolding parse_cidr net_string
print_cidr s = elim (parse_cidr s) [ none ↦ none | some n ↦ some (net_string n) ]

prints :
    (print (codes "10.0.0.255") ≡ codes "10.0.0.255")
    × (print (codes "010.0.0.1") ≡ codes "<nil>")
    × (print (codes "1.2.3.4.") ≡ codes "<nil>")
    × (print (codes "1.2.3.256") ≡ codes "<nil>")
    × (print (codes "2001:DB8:0:0:1:0:0:1") ≡ codes "2001:db8::1:0:0:1")
    × (print (codes "::") ≡ codes "::")
    × (print (codes "fe80::1") ≡ codes "fe80::1")
    × (print (codes "1::") ≡ codes "1::")
    × (print (codes "::ffff:1.2.3.4") ≡ codes "1.2.3.4")
    × (print (codes "64:ff9b::1.2.3.4") ≡ codes "64:ff9b::102:304")
    × (print (codes "1:2:3:4:5:6:7:8:9") ≡ codes "<nil>")
    × (print (codes "1::2::3") ≡ codes "<nil>")
    × (print (codes "12345::") ≡ codes "<nil>")
    × (print (codes "fe80::1%eth0") ≡ codes "<nil>")
    × (print (codes "example.com") ≡ codes "<nil>")
unfolding print
prints = (refl, refl, refl, refl, refl, refl, refl, refl, refl, refl, refl, refl, refl, refl, refl)

prints_cidr :
    (print_cidr (codes "10.1.2.3/8") ≡ some (codes "10.0.0.0/8"))
    × (print_cidr (codes "10.1.2.3/33") ≡ none)
    × (print_cidr (codes "fc00:1::/7") ≡ some (codes "fc00::/7"))
    × (print_cidr (codes "10.1.2.3/") ≡ none)
unfolding print_cidr
prints_cidr = (refl, refl, refl, refl)

contains_tests :
    (net_contains (host_net (10 ∷ 0 ∷ 0 ∷ 1 ∷ [])) (parse_ip (codes "10.0.0.1")) ≡ true)
    × (net_contains (host_net (10 ∷ 0 ∷ 0 ∷ 1 ∷ [])) (parse_ip (codes "10.0.0.2")) ≡ false)
    × (net_contains
          (record { ip = 10 ∷ 0 ∷ 0 ∷ 0 ∷ []; mask = cidr_mask 8 4 })
          (parse_ip (codes "10.9.9.9"))
        ≡ true)
unfolding net_contains cidr_mask parse_ip to4
contains_tests = (refl, refl, refl)
