-- ===== src/Tests/Rules.antt =====
-- internal/bypass/rule.go, internal/bypass/matcher.go: rules as a user writes them.
use outline_gate.Prelude.{◌≡◌, refl, true, false, [], ◌∷◌, none, some}
use outline_gate.Prelude.Result.{ok}
use outline_gate.Go.Text.{codes, trim_space, trim_suffix, has_suffix}
use outline_gate.Go.Unicode.{ascii}
use outline_gate.Go.Ip.{to4, host_net, is_nil}
use outline_gate.Go.IpParse.{parse_ip}
use outline_gate.Go.IpString.{ip_string}
use outline_gate.Bypass.Rule.{
  Rule, domain, suffix, ip, parse_rule, parse_trimmed, validate_hostname, check_labels, check_label,
  normalize_host,
}
use outline_gate.Bypass.Rule.Canonical.{IsCanonical, parse_rule-IsCanonical}
use outline_gate.Bypass.Matcher.{match_host_detail, match_name, no_match}
use outline_gate.Bypass.Matcher.Coverage.{HostAnswers, match_host_detail-HostAnswers}
use outline_gate.Bypass.Matcher.Unmatched.{match_host_detail-address_domain}

abbrev shop : Rule
shop = record {
  raw = codes "*.shop.example";
  kind = suffix;
  net = none;
  host = codes "shop.example";
}

abbrev dotted : Rule
dotted = record { raw = codes "1.2.3.4"; kind = domain; net = none; host = codes "1.2.3.4" }

shop_parsed : parse_rule ascii (codes " *.Shop.example. ") ≡ ok shop
unfolding parse_rule parse_trimmed validate_hostname check_labels check_label trim_space parse_ip
    trim_suffix has_suffix
shop_parsed = refl

-- An address with a dot behind it is read as a name.
dotted_parsed : parse_rule ascii (codes "1.2.3.4.") ≡ ok dotted
unfolding parse_rule parse_trimmed validate_hostname check_labels check_label trim_space parse_ip
    trim_suffix has_suffix
dotted_parsed = refl

-- The text that this rule has on disk is read as an address.
dotted_reads :
    parse_rule ascii (codes "1.2.3.4")
    ≡ ok (record {
      raw = codes "1.2.3.4";
      kind = ip;
      net = some (host_net (1 ∷ 2 ∷ 3 ∷ 4 ∷ []));
      host = [];
    })
unfolding parse_rule parse_trimmed trim_space parse_ip ip_string to4
dotted_reads = refl

matches :
    (match_host_detail ascii (shop ∷ []) (codes "a.SHOP.example.") ≡ (true, codes "*.shop.example"))
    × (match_host_detail ascii (shop ∷ []) (codes "workshop.example") ≡ no_match)
unfolding match_host_detail match_name normalize_host trim_suffix trim_space parse_ip has_suffix
matches = (refl, refl)

shop_no_address : parse_ip shop.raw ≡ []
unfolding parse_ip
shop_no_address = refl

parse_rule-IsCanonical_example : IsCanonical ascii shop
parse_rule-IsCanonical_example =
    parse_rule-IsCanonical ascii (codes " *.Shop.example. ") shop_parsed refl shop_no_address

match_host_detail-HostAnswers_example :
    HostAnswers ascii
      (shop ∷ dotted ∷ [])
      (codes "a.SHOP.example.")
      (match_host_detail ascii (shop ∷ dotted ∷ []) (codes "a.SHOP.example."))
match_host_detail-HostAnswers_example =
    match_host_detail-HostAnswers ascii (shop ∷ dotted ∷ []) (codes "a.SHOP.example.")

dotted_address : is_nil (parse_ip dotted.host) ≡ false
unfolding parse_ip
dotted_address = refl

match_host_detail-address_domain_example :
    match_host_detail ascii (dotted ∷ []) (codes "1.2.3.4") ≡ no_match
match_host_detail-address_domain_example =
    match_host_detail-address_domain ascii dotted (codes "1.2.3.4") refl refl dotted_address
