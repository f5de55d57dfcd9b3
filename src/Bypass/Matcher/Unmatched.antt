-- ===== src/Bypass/Matcher/Unmatched.antt =====
-- internal/bypass/matcher.go: a domain rule that can match no host.
use outline_gate.Prelude.{◌≡◌, refl, ap, ◌∙◌, inl, inr, false, [], ◌∷◌, none, arith, Bool-cases}
use outline_gate.Go.Text.{Text, text_eq, text_eq_iff, is_empty}
use outline_gate.Go.Unicode.{Unicode}
use outline_gate.Go.Ip.{is_nil}
use outline_gate.Go.IpParse.{parse_ip}
use outline_gate.Bypass.Rule.{Rule, domain, normalize_host}
use outline_gate.Bypass.Matcher.{
  match_host_detail, match_ip_detail, match_ip_rules, match_name, covers_name, no_match,
}

-- A domain rule without a network whose host is the text of an address matches no host.
pub match_host_detail-address_domain :
    (u : Unicode) (r : Rule) (host : Text)
    → r.kind ≡ domain
    → r.net ≡ none
    → is_nil (parse_ip r.host) ≡ false
    → match_host_detail u (r ∷ []) host ≡ no_match
unfolding match_host_detail match_ip_detail match_ip_rules match_name
match_host_detail-address_domain u r host k n a =
    let h = normalize_host u host in
    elim (Bool-cases (is_empty h)) [
      | inl empty ↦ rw empty refl
      | inr some ↦ elim (Bool-cases (is_nil (parse_ip h))) [
        | inr address ↦ rw (some, address, n) refl
        | inl name ↦ elim (Bool-cases (text_eq h r.host)) [
          | inl same ↦
              let apart : is_nil (parse_ip h) ≡ false = rw ((text_eq_iff h r.host).0 same) a in
              absurd (ground (arith, name, apart))
          | inr other ↦ rw (some, name, ap (λ c. covers_name c h r.host) k ∙ other) refl
        ]
      ]
    ]
