-- ===== src/Bypass/Manager/Nets.antt =====
-- internal/bypass/manager.go: which addresses the manager sends past the tunnel.
use outline_gate.Prelude.{
  ◌≡◌, refl, inl, inr, Bool, true, false, not, ◌&&◌, ◌||◌, List, [], ◌∷◌, ◌++◌, Bool-cases,
  Option-cases, if◌then◌else◌, arith, any, length, length-drop,
}
use outline_gate.Go.Text.{Text}
use outline_gate.Go.Ip.{IpAddr, IpNet, is_nil, prefer4, net_contains, to4}
use outline_gate.Bypass.Rule.{Rule}
use outline_gate.Bypass.Matcher.{static_nets, match_ip_detail, match_ip_rules}
use outline_gate.Bypass.Manager.{Manager, holds, match_ip_bypass}

-- Whether some net holds an address.
abbrev pub in_nets : IpAddr → List IpNet → Bool
in_nets ip = any (λ n. net_contains n ip)

holds-any : (ns : List IpNet) (ip : IpAddr) → holds ns ip ≡ in_nets ip ns
holds-any [] ip = refl
holds-any (n ∷ ns) ip = ground (arith, holds-any ns ip)

match_ip_rules-static :
    (rs : List Rule) (ip : IpAddr) → (match_ip_rules rs ip).0 ≡ in_nets ip (static_nets rs)
unfolding match_ip_rules static_nets
match_ip_rules-static [] ip = refl
match_ip_rules-static (r ∷ rs) ip = elim (Option-cases r.net) [
  | inl e ↦ rw e (match_ip_rules-static rs ip)
  | inr (n, e) ↦ rw e (ground (arith, match_ip_rules-static rs ip))
]

in_nets-append :
    (ms ns : List IpNet) (ip : IpAddr) → in_nets ip (ms ++ ns) ≡ (in_nets ip ms || in_nets ip ns)
in_nets-append [] ns ip = refl
in_nets-append (n ∷ ms) ns ip = ground (arith, in_nets-append ms ns ip)

to4-length : (ip : IpAddr) → is_nil (to4 ip) ≡ false → length (to4 ip) ≡ 4
unfolding to4
to4-length ip h = ground (arith, length-drop 12 ip)

to4-short : (ip : IpAddr) → length ip ≡ 4 → to4 ip ≡ ip
unfolding to4
to4-short ip h = rw h refl

is_nil-length : (ip : IpAddr) → length ip ≡ 4 → is_nil ip ≡ false
is_nil-length [] h = absurd (omega arith)
is_nil-length (x ∷ ip) h = refl

prefer4_idem : (ip : IpAddr) → prefer4 (prefer4 ip) ≡ prefer4 ip
prefer4_idem ip = elim (Bool-cases (is_nil (to4 ip))) [
  | inl long ↦ rw (long, long) refl
  | inr short ↦
      let e : to4 (to4 ip) ≡ to4 ip = to4-short (to4 ip) (to4-length ip short) in
      rw (short, e, short) refl
]

is_nil-prefer4 : (ip : IpAddr) → is_nil (prefer4 ip) ≡ is_nil ip
unfolding to4
is_nil-prefer4 [] = refl
is_nil-prefer4 (x ∷ ip) = elim (Bool-cases (is_nil (to4 (x ∷ ip)))) [
  | inl long ↦ rw long refl
  | inr short ↦ rw (short, short) refl
]

match_ip_detail-static :
    (rs : List Rule) (ip : IpAddr)
    → (match_ip_detail rs ip).0 ≡ (not (is_nil ip) && in_nets (prefer4 ip) (static_nets rs))
unfolding match_ip_detail
match_ip_detail-static rs ip = elim (Bool-cases (is_nil ip)) [
  | inl e ↦ rw e refl
  | inr e ↦ rw e (match_ip_rules-static rs (prefer4 ip))
]

-- The answer of a search that goes on where its first test fails.
answer : (b : Bool) (t : Text) (w : Bool × Text) → (if b then (true, t) else w).0 ≡ (b || w.0)
answer true t w = refl
answer false t w = refl

-- An address is sent past the tunnel exactly if one of the static nets, of the nets of the matcher's rules
-- or of the resolved nets holds it in its short form.
pub match_ip_bypass-nets :
    {E : Type 0} (m : Manager E) (addr : IpAddr)
    → (match_ip_bypass m addr).0 ≡ (
        not (is_nil addr)
        && in_nets (prefer4 addr) (m.static ++ static_nets m.matcher ++ m.resolved))
unfolding match_ip_bypass
match_ip_bypass-nets m addr =
    let ip : IpAddr = prefer4 addr in
    elim (Bool-cases (is_nil addr)) [
      | inl e ↦ rw e refl
      | inr e ↦
          rw
            (
              e,
              answer _ _ _,
              answer (holds m.static ip) _ _,
              answer (holds m.resolved ip) _ _,
              match_ip_detail-static m.matcher ip,
              is_nil-prefer4 addr,
              e,
              prefer4_idem addr,
            )
            (ground (
              arith,
              holds-any m.static ip,
              holds-any m.resolved ip,
              in_nets-append (m.static ++ static_nets m.matcher) m.resolved ip,
              in_nets-append m.static (static_nets m.matcher) ip,
            ))
    ]
