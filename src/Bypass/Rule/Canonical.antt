-- ===== src/Bypass/Rule/Canonical.antt =====
-- internal/bypass/rule.go: the text of a parsed domain or suffix rule is its canonical form.
use mathlib.Core.Path.{subst, ap₂}
use mathlib.Core.List.{reverse, reverse-reverse, reverse-append}
use outline_gate.Prelude.{
  ℕ, ◌<◌, ◌≡◌, refl, sym, ap, ◌∙◌, inl, inr, true, false, not, ◌||◌, [], ◌∷◌, ◌++◌, Option, some,
  none, arith, ◌==◌, length, All, All-append, All-drop, Bool-cases, if-both,
}
use outline_gate.Prelude.Result.{Result, ok, err}
use outline_gate.Go.Text.{
  Text, is_empty, is_space, has_prefix, trim_prefix, has_suffix, trim_suffix, trim_space, contains,
}
use outline_gate.Go.TextLaws.{NoSpace, trim_space-NoSpace, lower_idem, lower_small}
use outline_gate.Go.Unicode.{Unicode, lower}
use outline_gate.Go.Ip.{IpNet, is_nil}
use outline_gate.Go.IpParse.{parse_ip, parse_cidr}
use outline_gate.Go.IpString.{net_string}
use outline_gate.Go.IpLaws.{parse_ip-star}
use outline_gate.Bypass.Rule.{
  Rule, RuleError, invalid_cidr, cidr, domain, suffix, invalid_domain, invalid_suffix, HostError,
  validate_hostname, parse_name, parse_trimmed, parse_rule, dot, star_dot,
}
use outline_gate.Bypass.Rule.Hostname.{
  host_char, IsHost, validate_hostname-IsValidHost, host_char-mark, host_char-slash, IsHost-NoSpace,
  IsHost-contains,
}

NoSpace-contains : (d : ℕ) (s : Text) → is_space d ≡ true → NoSpace s → contains s d ≡ false
NoSpace-contains d [] e h = refl
NoSpace-contains d (c ∷ s) e h = elim (Bool-cases (c == d)) [
  | inl same ↦ let p : c ≡ d = ground arith in cc (sym h.0 ∙ ap is_space p ∙ e)
  | inr other ↦ rw other (NoSpace-contains d s e h.1)
]

parse_trimmed-name :
    (u : Unicode) (s : Text)
    → NoSpace s
    → is_empty s ≡ false
    → contains s b'/' ≡ false
    → parse_ip s ≡ []
    → parse_trimmed u s ≡ parse_name u (lower u s)
unfolding parse_trimmed
parse_trimmed-name u s n e c i =
    rw (e, NoSpace-contains b' ' s refl n, NoSpace-contains b'\t' s refl n, c, i)

-- A text with no blank and no slash that is no address is read as a name.
parse_rule-name :
    (u : Unicode) (s : Text)
    → NoSpace s
    → is_empty s ≡ false
    → contains s b'/' ≡ false
    → parse_ip s ≡ []
    → parse_rule u s ≡ parse_name u (lower u s)
unfolding parse_rule
parse_rule-name u s n e c i =
    ap (parse_trimmed u) (trim_space-NoSpace s n) ∙ parse_trimmed-name u s n e c i

trim_suffix-none : (s p : Text) → has_suffix s p ≡ false → trim_suffix s p ≡ s
unfolding has_suffix trim_suffix
trim_suffix-none s p h = rw h (reverse-reverse s)

no_mark : (u : Unicode) (d : ℕ) (p s : Text) → d < 45 → IsHost u s → has_prefix s (d ∷ p) ≡ false
no_mark u d p [] b h = refl
no_mark u d p (c ∷ s) b h = elim (Bool-cases (c == d)) [
  | inl same ↦
      let e : c ≡ d = ground arith in cc (sym h.0 ∙ ap (host_char u) e ∙ host_char-mark u d b)
  | inr other ↦ rw other
]

abbrev domain_rule : Text → Rule
domain_rule host = record { raw = host; kind = domain; net = none; host = host }

abbrev suffix_rule : Text → Rule
suffix_rule apex = record { raw = star_dot ++ apex; kind = suffix; net = none; host = apex }

-- The text of a rule reads back as that rule, and can stand on a line of its own.
pub record IsCanonical (u : Unicode) (r : Rule) : Type 0 where
  pub reads : parse_rule u r.raw ≡ ok r
  pub no_space : NoSpace r.raw
  pub some_text : is_empty r.raw ≡ false
  pub no_comment : has_prefix r.raw (b'#' ∷ []) ≡ false

domain-IsCanonical :
    (u : Unicode) (host : Text)
    → validate_hostname u host ≡ none
    → lower u host ≡ host
    → parse_ip host ≡ []
    → IsCanonical u (domain_rule host)
domain-IsCanonical u host v l i =
    let h = validate_hostname-IsValidHost u host v in
    let n = IsHost-NoSpace u host h.chars in
    let same = trim_suffix-none host dot h.no_dot in
    record {
      reads =
          parse_rule-name u host n h.some_text
            (IsHost-contains u b'/' host (host_char-slash u) h.chars) i
          ∙ ap (parse_name u) l
          ∙ rw
              (
                no_mark u b'*' dot host (omega arith) h.chars,
                trim_suffix-none host dot h.no_dot,
                l,
                v,
              )
              (ap (λ x. ok (domain_rule x)) (ap (lower u) same ∙ l));
      no_space = n;
      some_text = h.some_text;
      no_comment = no_mark u b'#' [] host (omega arith) h.chars;
    }

suffix-IsCanonical :
    (u : Unicode) (apex : Text)
    → validate_hostname u apex ≡ none
    → lower u apex ≡ apex
    → IsCanonical u (suffix_rule apex)
suffix-IsCanonical u apex v l =
    let h = validate_hostname-IsValidHost u apex v in
    let n : NoSpace (star_dot ++ apex) = (refl, (refl, IsHost-NoSpace u apex h.chars)) in
    let low : lower u (star_dot ++ apex) ≡ star_dot ++ apex =
      ap₂ (λ s t. s ++ t) (lower_small u star_dot (ground arith)) l in
    record {
      reads =
          parse_rule-name u (star_dot ++ apex) n refl
            (IsHost-contains u b'/' apex (host_char-slash u) h.chars) (parse_ip-star apex)
          ∙ ap (parse_name u) low
          ∙ rw (trim_suffix-none apex dot h.no_dot, v)
              (ap (λ a. ok (suffix_rule a)) (trim_suffix-none apex dot h.no_dot));
      no_space = n;
      some_text = refl;
      no_comment = refl;
    }

-- Every character is in lower case.
abbrev Lowered : Unicode → Text → Type 0
Lowered u = All (λ c. u.to_lower c ≡ c)

Lowered-lower : (u : Unicode) (s : Text) → Lowered u (lower u s)
Lowered-lower u [] = tt
Lowered-lower u (c ∷ s) = (u.to_lower_idem c, Lowered-lower u s)

lower-Lowered : (u : Unicode) (s : Text) → Lowered u s → lower u s ≡ s
lower-Lowered u [] h = refl
lower-Lowered u (c ∷ s) h = ap₂ ◌∷◌ h.0 (lower-Lowered u s h.1)

Lowered-reverse : (u : Unicode) (s : Text) → Lowered u s → Lowered u (reverse s)
Lowered-reverse u [] h = tt
Lowered-reverse u (c ∷ s) h =
    rw (reverse-append (c ∷ []) s)
      (All-append (λ d. u.to_lower d ≡ d) (reverse s) (c ∷ []) (Lowered-reverse u s h.1) (h.0, tt))

Lowered-trim_prefix : (u : Unicode) (s p : Text) → Lowered u s → Lowered u (trim_prefix s p)
Lowered-trim_prefix u s p h =
    if-both (Lowered u) (has_prefix s p) _ _ (All-drop (λ d. u.to_lower d ≡ d) (length p) s h) h

Lowered-trim_suffix : (u : Unicode) (s p : Text) → Lowered u s → Lowered u (trim_suffix s p)
unfolding trim_suffix
Lowered-trim_suffix u s p h =
    Lowered-reverse u _ (Lowered-trim_prefix u (reverse s) (reverse p) (Lowered-reverse u s h))

-- A result, if it is a rule, is a canonical one, unless it is a name that reads as an address.
abbrev Canonizes : Unicode → Result RuleError Rule → Type 0
Canonizes u (ok r) = parse_ip r.raw ≡ [] → IsCanonical u r
Canonizes u (err e) = Unit {0}

domain-Canonizes :
    (u : Unicode) (host : Text) (o : Option HostError)
    → validate_hostname u host ≡ o
    → lower u host ≡ host
    → Canonizes u (elim o [ some e ↦ err (invalid_domain e) | none ↦ ok (domain_rule host) ])
domain-Canonizes u host none v l = domain-IsCanonical u host v l
domain-Canonizes u host (some e) v l = tt

suffix-Canonizes :
    (u : Unicode) (apex : Text) (o : Option HostError)
    → validate_hostname u apex ≡ o
    → lower u apex ≡ apex
    → Canonizes u (elim o [ some e ↦ err (invalid_suffix e) | none ↦ ok (suffix_rule apex) ])
suffix-Canonizes u apex none v l = λ _. suffix-IsCanonical u apex v l
suffix-Canonizes u apex (some e) v l = tt

parse_name-Canonizes : (u : Unicode) (s : Text) → Lowered u s → Canonizes u (parse_name u s)
parse_name-Canonizes u s h =
    if-both (Canonizes u) (has_prefix s star_dot) _ _
      (suffix-Canonizes u (trim_suffix (trim_prefix s star_dot) dot) _ refl
        (lower-Lowered u _ (Lowered-trim_suffix u _ dot (Lowered-trim_prefix u s star_dot h))))
      (domain-Canonizes u (lower u (trim_suffix s dot)) _ refl (lower_idem u (trim_suffix s dot)))

-- A rule without a net, from a text that was trimmed.
abbrev NameCanonizes : Unicode → Result RuleError Rule → Type 0
NameCanonizes u (ok r) = r.net ≡ none → parse_ip r.raw ≡ [] → IsCanonical u r
NameCanonizes u (err e) = Unit {0}

weaken : (u : Unicode) (m : Result RuleError Rule) → Canonizes u m → NameCanonizes u m
weaken u (ok r) h = λ _. h
weaken u (err e) h = tt

cidr-NameCanonizes :
    (u : Unicode) (o : Option IpNet)
    → NameCanonizes u (elim o [
      | none ↦ err invalid_cidr
      | some n ↦ ok (record { raw = net_string n; kind = cidr; net = some n; host = [] })
    ])
cidr-NameCanonizes u none = tt
cidr-NameCanonizes u (some n) = λ e _. cc

parse_trimmed-NameCanonizes : (u : Unicode) (s : Text) → NameCanonizes u (parse_trimmed u s)
unfolding parse_trimmed
parse_trimmed-NameCanonizes u s = if-both N (is_empty s) _ _ tt (
    if-both N (contains s b' ' || contains s b'\t') _ _ tt (
      if-both N (contains s b'/') _ _ (cidr-NameCanonizes u (parse_cidr s)) (
        if-both N (not (is_nil (parse_ip s))) _ _ (λ e _. cc)
          (weaken u (parse_name u (lower u s))
            (parse_name-Canonizes u (lower u s) (Lowered-lower u s))))))
  where
    N : Result RuleError Rule → Type 0
    N = NameCanonizes u

-- The text of a parsed domain or suffix rule parses to that very rule, has no blank, is not empty and is no
-- comment. Excepted is a text that reads as an IP address.
pub parse_rule-IsCanonical :
    (u : Unicode) (s : Text) {r : Rule}
    → parse_rule u s ≡ ok r
    → r.net ≡ none
    → parse_ip r.raw ≡ []
    → IsCanonical u r
unfolding parse_rule
parse_rule-IsCanonical u s e =
    subst (NameCanonizes u) e (parse_trimmed-NameCanonizes u (trim_space s))
