-- ===== src/Bypass/Rule/Addresses.antt =====
-- internal/bypass/rule.go: the rule for an IPv4 address has a canonical text.
use outline_gate.Prelude.{ℕ, ◌<◌, ◌≡◌, refl, ap, ◌∙◌, false, [], ◌∷◌, ◌++◌, some, arith}
use outline_gate.Prelude.Result.{ok}
use outline_gate.Go.Text.{Text, is_empty, has_prefix}
use outline_gate.Go.TextLaws.{NoSpace, trim_space-NoSpace}
use outline_gate.Go.Unicode.{Unicode}
use outline_gate.Go.Ip.{host_net, to4}
use outline_gate.Go.IpString.{itoa}
use outline_gate.Go.Ip4Text.{
  AllDecimal, itoa-AllDecimal, dotted, contains-dotted, parse_ip-dotted, ip_string-dotted,
}
use outline_gate.Bypass.Rule.{Rule, ip, parse_rule, parse_trimmed}
use outline_gate.Bypass.Rule.Canonical.{IsCanonical}

NoSpace-digits : (s rest : Text) → AllDecimal s → NoSpace rest → NoSpace (s ++ rest)
NoSpace-digits [] rest h k = k
NoSpace-digits (c ∷ s) rest h k = (ground (arith, h.0), NoSpace-digits s rest h.1 k)

NoSpace-only : (s : Text) → AllDecimal s → NoSpace s
NoSpace-only [] h = tt
NoSpace-only (c ∷ s) h = (ground (arith, h.0), NoSpace-only s h.1)

digits_head : (s rest : Text) → AllDecimal s → has_prefix (s ++ b'.' ∷ rest) (b'#' ∷ []) ≡ false
digits_head [] rest h = refl
digits_head (c ∷ s) rest h = ground (arith, h.0)

digits_some : (s rest : Text) → is_empty (s ++ b'.' ∷ rest) ≡ false
digits_some [] rest = refl
digits_some (c ∷ s) rest = refl

-- The rule for an IPv4 address, as `ParseRule` gives it.
abbrev pub ip4_rule : ℕ → ℕ → ℕ → ℕ → Rule
ip4_rule a b c d = record {
  raw = dotted a b c d;
  kind = ip;
  net = some (host_net (a ∷ b ∷ c ∷ d ∷ []));
  host = [];
}

module _ (u : Unicode) {a b c d : ℕ} (ha : a < 256) (hb : b < 256) (hc : c < 256)
    (hd : d < 256) where
  dotted-NoSpace : NoSpace (dotted a b c d)
  dotted-NoSpace = NoSpace-digits (itoa a) _ (itoa-AllDecimal a ha) (
    refl,
    NoSpace-digits (itoa b) _ (itoa-AllDecimal b hb) (
      refl,
      NoSpace-digits (itoa c) _ (itoa-AllDecimal c hc)
          (refl, NoSpace-only (itoa d) (itoa-AllDecimal d hd)),
    ),
  )

  parse_trimmed-dotted : parse_trimmed u (dotted a b c d) ≡ ok (ip4_rule a b c d)
  unfolding parse_trimmed to4
  parse_trimmed-dotted =
      rw
        (
          digits_some (itoa a) (itoa b ++ (b'.' ∷ (itoa c ++ (b'.' ∷ itoa d)))),
          contains-dotted ha hb hc hd b' ' refl refl,
          contains-dotted ha hb hc hd b'\t' refl refl,
          contains-dotted ha hb hc hd b'/' refl refl,
          parse_ip-dotted ha hb hc hd,
          ip_string-dotted ha hb hc hd,
        )
        refl

  -- The rule for an IPv4 address has a text that reads back as that very rule, with no blank, not empty
  -- and no comment.
  pub ip4_rule-IsCanonical : IsCanonical u (ip4_rule a b c d)
  unfolding parse_rule
  ip4_rule-IsCanonical = record {
    reads =
        ap (parse_trimmed u) (trim_space-NoSpace (dotted a b c d) dotted-NoSpace)
        ∙ parse_trimmed-dotted;
    no_space = dotted-NoSpace;
    some_text = digits_some (itoa a) (itoa b ++ (b'.' ∷ (itoa c ++ (b'.' ∷ itoa d))));
    no_comment =
        digits_head (itoa a) (itoa b ++ (b'.' ∷ (itoa c ++ (b'.' ∷ itoa d))))
          (itoa-AllDecimal a ha);
  }
