-- ===== src/Bypass/Manager/Effective.antt =====
-- internal/bypass/manager.go: the nets that `EffectiveBypassNets` gives against the answers of the manager.
use outline_gate.Prelude.{
  ◌≡◌, ◌⊎◌, refl, sym, ap, ◌∙◌, inl, inr, Bool, true, false, not, ◌&&◌, ◌||◌, List, [], ◌∷◌, ◌++◌,
  Bool-cases, if◌then◌else◌, arith, any,
}
use mathlib.Core.Path.{subst}
use outline_gate.Go.Text.{Text, text_eq, text_eq_iff, text_eq_refl}
use outline_gate.Go.Unicode.{Unicode}
use outline_gate.Go.Ip.{IpAddr, IpNet, is_nil, prefer4, net_contains}
use outline_gate.Go.IpString.{net_string}
use outline_gate.Bypass.Disk.{Disk}
use outline_gate.Bypass.Matcher.{static_nets, seen_before}
use outline_gate.Bypass.Manager.{Manager, add_nets, effective_nets, match_ip_bypass}
use outline_gate.Bypass.Manager.Nets.{in_nets, match_ip_bypass-nets}
use outline_gate.Bypass.Manager.Current.{Call, run, IsCurrent, run-IsCurrent}

-- Whether a net with a text is in a list.
abbrev pub lists : Text → List IpNet → Bool
lists t = any (λ n. text_eq (net_string n) t)

any-append : (p : IpNet → Bool) (xs ys : List IpNet) → any p (xs ++ ys) ≡ (any p xs || any p ys)
any-append p [] ys = refl
any-append p (x ∷ xs) ys = ground (arith, any-append p xs ys)

-- Some element passes the test, and its text is in the list.
any-found :
    (p : IpNet → Bool) (xs : List IpNet)
    → any p xs ≡ true
    → (n : IpNet) × (p n ≡ true) × (lists (net_string n) xs ≡ true)
any-found p [] h = absurd (cc)
any-found p (x ∷ xs) h = elim (Bool-cases (p x)) [
  | inl e ↦ (x, e, rw (text_eq_refl (net_string x)) refl)
  | inr e ↦ let (n, a, b) = any-found p xs (ground (arith, h, e)) in (n, a, ground (arith, b))
]

-- The keys are the texts of what was taken.
abbrev Keyed : List Text × List IpNet → Type 0
Keyed (keys, out) = (t : Text) → seen_before keys t ≡ lists t out

taken-Keyed :
    (n : IpNet) (keys : List Text) (out : List IpNet)
    → Keyed (keys, out)
    → Keyed (net_string n ∷ keys, out ++ n ∷ [])
taken-Keyed n keys out k t =
    ground (arith, k t, any-append (λ m. text_eq (net_string m) t) out (n ∷ []))

-- What is in the result was in one of the lists; it holds each text of both; and its keys are its texts.
abbrev Collects : List IpNet → List Text × List IpNet → List Text × List IpNet → Type 0
Collects ns w v =
    ((p : IpNet → Bool) → any p v.1 ≡ true → (any p w.1 || any p ns) ≡ true)
    × ((t : Text) → (lists t w.1 || lists t ns) ≡ true → lists t v.1 ≡ true)
    × Keyed v

skipped :
    (n : IpNet) (keys : List Text) (out : List IpNet) (t : Text)
    → seen_before keys (net_string n) ≡ true
    → Keyed (keys, out)
    → text_eq (net_string n) t ≡ true
    → lists t out ≡ true
skipped n keys out t s k e =
    subst (λ u. lists u out ≡ true) ((text_eq_iff (net_string n) t).0 e)
      (sym (k (net_string n)) ∙ s)

-- One more net in front, which is skipped if its text is a key.
step-Collects :
    (n : IpNet) (ns : List IpNet) (keys : List Text) (out : List IpNet) (b : Bool)
    → ((keys' : List Text) (out' : List IpNet)
        → Keyed (keys', out')
        → Collects ns (keys', out') (add_nets ns (keys', out')))
    → Keyed (keys, out)
    → seen_before keys (net_string n) ≡ b
    → Collects
        (n ∷ ns)
        (keys, out)
        (add_nets ns (if b then (keys, out) else (net_string n ∷ keys, out ++ n ∷ [])))
step-Collects n ns keys out true more k s =
    let (a, b, c) = more keys out k in
    (
      λ p h. ground (arith, a p h),
      λ t h. elim (Bool-cases (text_eq (net_string n) t)) [
        | inl e ↦ b t (ground (arith, skipped n keys out t s k e))
        | inr e ↦ b t (ground (arith, h, e))
      ],
      c,
    )
step-Collects n ns keys out false more k s =
    let (a, b, c) = more (net_string n ∷ keys) (out ++ n ∷ []) (taken-Keyed n keys out k) in
    (
      λ p h. ground (arith, a p h, any-append p out (n ∷ [])),
      λ t h. b t (ground (arith, h, any-append (λ m. text_eq (net_string m) t) out (n ∷ []))),
      c,
    )

add_nets-Collects :
    (ns : List IpNet) (keys : List Text) (out : List IpNet)
    → Keyed (keys, out)
    → Collects ns (keys, out) (add_nets ns (keys, out))
unfolding add_nets
add_nets-Collects [] keys out k = (λ p h. ground (arith, h), λ t h. ground (arith, h), k)
add_nets-Collects (n ∷ ns) keys out k =
    step-Collects n ns keys out (seen_before keys (net_string n)) (add_nets-Collects ns) k refl

-- The three lists one after the other.
abbrev pub sources : {E : Type 0} → Manager E → List IpNet
sources m = m.static ++ static_nets m.store.rules ++ m.resolved

module _ {E : Type 0} (m : Manager E) where
  any-sources :
      (p : IpNet → Bool)
      → any p (sources m)
        ≡ (any p m.static || any p (static_nets m.store.rules) || any p m.resolved)
  any-sources p = ground (
    arith,
    any-append p (m.static ++ static_nets m.store.rules) m.resolved,
    any-append p m.static (static_nets m.store.rules),
  )

  effective_nets-sources :
      ((p : IpNet → Bool) → any p (effective_nets m) ≡ true → any p (sources m) ≡ true)
      × ((t : Text) → lists t (sources m) ≡ true → lists t (effective_nets m) ≡ true)
  unfolding effective_nets
  effective_nets-sources =
      let first = add_nets m.static ([], []) in
      let second = add_nets (static_nets m.store.rules) first in
      let (a, b, c) = add_nets-Collects m.static [] [] (λ t. refl) in
      let (d, e, f) = add_nets-Collects (static_nets m.store.rules) first.0 first.1 c in
      let (g, h, i) = add_nets-Collects m.resolved second.0 second.1 f in
      (
        λ p x. ground (arith, any-sources p, a p, d p, g p x),
        λ t x. ground (arith, x, any-sources (λ n. text_eq (net_string n) t), b t, e t, h t),
      )

  -- An address and the two answers about it.
  abbrev pub Agrees : IpAddr → Type 0
  Agrees addr =
      (((match_ip_bypass m addr).0 ≡ true)
        × (n : IpNet) × (net_contains n (prefer4 addr) ≡ true)
        × (lists (net_string n) (effective_nets m) ≡ true))
      ⊎ (((match_ip_bypass m addr).0 ≡ false) × (in_nets (prefer4 addr) (effective_nets m) ≡ false))

  current-Agrees : (addr : IpAddr) → IsCurrent m → is_nil addr ≡ false → Agrees addr
  current-Agrees addr current given =
      let inside : IpNet → Bool = λ n. net_contains n (prefer4 addr) in
      let answer : (match_ip_bypass m addr).0 ≡ any inside (sources m) =
        match_ip_bypass-nets m addr
        ∙ ap
            (λ b. not b && in_nets (prefer4 addr) (m.static ++ static_nets m.matcher ++ m.resolved))
            given
        ∙ ap (λ rs. in_nets (prefer4 addr) (m.static ++ static_nets rs ++ m.resolved)) current in
      elim (Bool-cases (any inside (sources m))) [
        | inl e ↦
            let (n, holds, listed) = any-found inside (sources m) e in
            inl (answer ∙ e, n, holds, effective_nets-sources.1 (net_string n) listed)
        | inr e ↦ inr (answer ∙ e, ground (arith, effective_nets-sources.0 inside, e))
      ]

-- After any calls of the manager, one after the other, from a manager whose matcher is that of its rules,
-- and for an address that is not nil: the manager sends it past the tunnel, and some net that holds it is
-- in `EffectiveBypassNets` by its text, or it does not, and no net of `EffectiveBypassNets` holds it.
pub run-Agrees :
    {E : Type 0} (u : Unicode) (m : Manager E) (d : Disk) (cs : List (Call E)) (addr : IpAddr)
    → IsCurrent m
    → is_nil addr ≡ false
    → Agrees (run u (m, d) cs).0 addr
run-Agrees u m d cs addr current given =
    current-Agrees (run u (m, d) cs).0 addr (run-IsCurrent u m d cs current) given
