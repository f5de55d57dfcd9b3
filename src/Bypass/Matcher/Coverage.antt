-- ===== src/Bypass/Matcher/Coverage.antt =====
-- internal/bypass/matcher.go: which rule answers, and which names are resolved.
use outline_gate.Prelude.{
  ◌≡◌, ◌≢◌, ◌↔◌, ◌⊎◌, inl, inr, refl, ◌∙◌, Bool, true, false, List, [], ◌∷◌, Option, some, none,
  arith, if◌then◌else◌, All, Bool-cases,
}
use outline_gate.Go.Text.{Text, text_eq_iff, is_empty, has_suffix}
use outline_gate.Go.Unicode.{Unicode}
use outline_gate.Go.Ip.{IpAddr, IpNet, is_nil, prefer4, net_contains}
use outline_gate.Go.IpParse.{parse_ip}
use outline_gate.Bypass.Rule.{Kind, ip, cidr, domain, suffix, Rule, normalize_host}
use outline_gate.Bypass.Matcher.{
  Matcher, no_match, covers_name, covers_ip, match_name, match_ip_rules, match_ip_detail,
  match_host_detail,
}

-- The first rule of a list that satisfies `P`, behind rules that do not.
pub data First (P : Rule → Type 0) : List Rule → Rule → Type 0 where
  here : {r : Rule} {rs : List Rule} → P r → First P (r ∷ rs) r
  later : {r q : Rule} {rs : List Rule} → ¬ P q → First P rs r → First P (q ∷ rs) r

-- A rule that covers a name: the name itself, or a name under a suffix.
abbrev pub CoversName : Text → Rule → Type 0
CoversName host r =
    ((r.kind ≡ domain) × (host ≡ r.host))
    ⊎ ((r.kind ≡ suffix) × ((host ≡ r.host) ⊎ (has_suffix host (b'.' ∷ r.host) ≡ true)))

-- A rule that covers an address: its net holds it.
abbrev pub CoversIp : IpAddr → Rule → Type 0
CoversIp addr r = (n : IpNet) × (r.net ≡ some n) × (net_contains n addr ≡ true)

-- The answer of a matcher: the first rule that covers, or none.
abbrev pub Answers : (Rule → Type 0) → List Rule → Bool × Text → Type 0
Answers P rs a =
    ((r : Rule) × First P rs r × (a ≡ (true, r.raw))) ⊎ (All (λ r. ¬ P r) rs × (a ≡ no_match))

covers_name-eq :
    (k : Kind) (r : Rule)
    → r.kind ≡ k
    → (host : Text) → (covers_name k host r.host ≡ true) ↔ CoversName host r
covers_name-eq domain r e host = ground (arith, text_eq_iff host r.host)
covers_name-eq suffix r e host = ground (arith, text_eq_iff host r.host)
covers_name-eq ip r e host = ground arith
covers_name-eq cidr r e host = ground arith

covers_ip_iff : (addr : IpAddr) (r : Rule) → (covers_ip r.net addr ≡ true) ↔ CoversIp addr r
covers_ip_iff addr r = go r.net refl
  where
    go : (o : Option IpNet) → r.net ≡ o → (covers_ip o addr ≡ true) ↔ CoversIp addr r
    go none e = ((λ h. cc), λ (n, f, h). cc)
    go (some n) e = ((λ h. (n, e, h)), λ (m, f, h). ground arith)

-- A loop that returns at the first rule its test passes.
first_match :
    (P : Rule → Type 0) (p : Rule → Bool) (loop : List Rule → Bool × Text)
    → ((r : Rule) → (p r ≡ true) ↔ P r)
    → loop [] ≡ no_match
    → ((r : Rule) (rs : List Rule) → loop (r ∷ rs) ≡ (if p r then (true, r.raw) else loop rs))
    → (rs : List Rule) → Answers P rs (loop rs)
first_match P p loop iff end next [] = inr (tt, end)
first_match P p loop iff end next (r ∷ rs) = elim (Bool-cases (p r)) [
  | inl yes_ ↦ inl (r, here ((iff r).0 yes_), next r rs ∙ rw yes_)
  | inr no_ ↦
      let miss : ¬ P r = λ h. cc ((iff r).1 h) in
      elim (first_match P p loop iff end next rs) [
        | inl (q, f, e) ↦ inl (q, later miss f, next r rs ∙ rw no_ e)
        | inr (a, e) ↦ inr ((miss, a), next r rs ∙ rw no_ e)
      ]
]

is_empty_iff : (t : Text) → (is_empty t ≡ true) ↔ (t ≡ [])
is_empty_iff [] = ground arith
is_empty_iff (c ∷ t) = ground arith

match_ip_rules-Answers :
    (rs : List Rule) (addr : IpAddr) → Answers (CoversIp addr) rs (match_ip_rules rs addr)
unfolding match_ip_rules
match_ip_rules-Answers rs addr =
    first_match (CoversIp addr) (λ r. covers_ip r.net addr) (λ l. match_ip_rules l addr)
      (covers_ip_iff addr) refl (λ r l. refl) rs

match_name-Answers :
    (rs : List Rule) (host : Text) → Answers (CoversName host) rs (match_name rs host)
unfolding match_name
match_name-Answers rs host =
    first_match (CoversName host) (λ r. covers_name r.kind host r.host) (λ l. match_name l host)
      (λ r. covers_name-eq r.kind r refl host) refl (λ r l. refl) rs

-- What a matcher answers for a host: nothing for an empty one; for an address, the first rule whose net
-- holds it; for a name, the first rule that covers it.
abbrev pub HostAnswers : Unicode → List Rule → Text → Bool × Text → Type 0
HostAnswers u rs host a =
    let h = normalize_host u host in
    ((h ≡ []) × (a ≡ no_match))
    ⊎ ((h ≢ []) × (parse_ip h ≢ []) × Answers (CoversIp (prefer4 (parse_ip h))) rs a)
    ⊎ ((h ≢ []) × (parse_ip h ≡ []) × Answers (CoversName h) rs a)

is_nil_iff : (x : IpAddr) → (is_nil x ≡ true) ↔ (x ≡ [])
is_nil_iff [] = ground arith
is_nil_iff (c ∷ t) = ground arith

false-ne {ℓ} : {A : Type ℓ} (b : Bool) → (b ≡ true) ↔ A → b ≡ false → ¬ A
false-ne b iff h a = cc (iff.1 a)

-- `MatchHostDetail` gives the answer of the first rule that covers the normalized host.
pub match_host_detail-HostAnswers :
    (u : Unicode) (m : Matcher) (host : Text) → HostAnswers u m host (match_host_detail u m host)
unfolding match_host_detail match_ip_detail
match_host_detail-HostAnswers u m host =
    let h : Text = normalize_host u host in
    elim (Bool-cases (is_empty h)) [
      | inl e ↦ inl ((is_empty_iff h).0 e, rw e)
      | inr some_text ↦
          let ne = false-ne (is_empty h) (is_empty_iff h) some_text in
          elim (Bool-cases (is_nil (parse_ip h))) [
            | inl name ↦
                inr (inr (ne, (is_nil_iff _).0 name, rw (some_text, name) (match_name-Answers m h)))
            | inr addr ↦ inr (
                inl (
                  ne,
                  false-ne _ (is_nil_iff _) addr,
                  rw (some_text, addr) (match_ip_rules-Answers m (prefer4 (parse_ip h))),
                ))
          ]
    ]
