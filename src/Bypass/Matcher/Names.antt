-- ===== src/Bypass/Matcher/Names.antt =====
-- internal/bypass/matcher.go: the names that `DomainsToResolve` collects.
use outline_gate.Prelude.{
  ◌≡◌, refl, inl, inr, Bool, false, not, ◌&&◌, ◌||◌, List, [], ◌∷◌, ◌++◌, arith, if◌then◌else◌, any,
  Bool-cases,
}
use outline_gate.Go.Text.{Text, text_eq, text_eq_iff, text_eq_refl, is_empty}
use outline_gate.Bypass.Rule.{Rule}
use outline_gate.Bypass.Matcher.{host_to_resolve, seen_before, domains_onto, domains_to_resolve}

-- No two texts are the same.
abbrev pub DistinctTexts : List Text → Type 0
DistinctTexts [] = Unit {0}
DistinctTexts (t ∷ ts) = (seen_before ts t ≡ false) × DistinctTexts ts

seen_before-append :
    (ts : List Text) (h t : Text) → seen_before (ts ++ h ∷ []) t ≡ (seen_before ts t || text_eq h t)
seen_before-append [] h t = ground arith
seen_before-append (x ∷ ts) h t = ground (arith, seen_before-append ts h t)

DistinctTexts-append :
    (ts : List Text) (h : Text)
    → DistinctTexts ts
    → seen_before ts h ≡ false
    → DistinctTexts (ts ++ h ∷ [])
DistinctTexts-append [] h d n = (refl, tt)
DistinctTexts-append (x ∷ ts) h d n = ground (
  arith,
  seen_before-append ts h x,
  DistinctTexts-append ts h d.1,
  text_eq_iff x h,
  text_eq_iff h x,
)

-- The rule is a domain or a suffix rule for the name `t`.
abbrev pub names : Text → Rule → Bool
names t r = not (is_empty t) && text_eq (host_to_resolve r) t

abbrev next_out : List Text → Text → List Text
next_out out h = if is_empty h || seen_before out h then out else out ++ h ∷ []

next_out-DistinctTexts :
    (out : List Text) (h : Text) → DistinctTexts out → DistinctTexts (next_out out h)
next_out-DistinctTexts out h d = ground (arith, DistinctTexts-append out h d)

next_out_self :
    (out : List Text) (t : Text)
    → seen_before (next_out out t) t ≡ (seen_before out t || (not (is_empty t) && text_eq t t))
next_out_self out t = ground (arith, seen_before-append out t t, text_eq_refl t)

next_out-seen :
    (out : List Text) (h t : Text)
    → seen_before (next_out out h) t ≡ (seen_before out t || (not (is_empty t) && text_eq h t))
next_out-seen out h t = elim (Bool-cases (text_eq h t)) [
  | inl same ↦ rw ((text_eq_iff h t).0 same) (next_out_self out t)
  | inr other ↦ ground (arith, seen_before-append out h t)
]

-- What the loop makes of the names in `out` and the rules behind them.
record Collects (out : List Text) (rs : List Rule) (got : List Text) : Type 0 where
  distinct : DistinctTexts got
  no_empty : seen_before got [] ≡ false
  members : (t : Text) → seen_before got t ≡ (seen_before out t || any (names t) rs)

domains_onto-Collects :
    (out : List Text) (rs : List Rule)
    → DistinctTexts out
    → seen_before out [] ≡ false
    → Collects out rs (domains_onto out rs)
unfolding domains_onto
domains_onto-Collects out [] d e = record {
  distinct = d;
  no_empty = e;
  members = λ t. ground arith;
}
domains_onto-Collects out (r ∷ rs) d e =
    let h = host_to_resolve r in
    let next = next_out out h in
    let c =
      domains_onto-Collects next rs (next_out-DistinctTexts out h d)
        (ground (arith, next_out-seen out h [])) in
    record {
      distinct = c.distinct;
      no_empty = c.no_empty;
      members = λ t. ground (arith, c.members t, next_out-seen out h t);
    }

-- `DomainsToResolve` gives each name of a domain or suffix rule that is not empty once, and nothing else.
pub domains_to_resolve-lists :
    (rs : List Rule)
    → DistinctTexts (domains_to_resolve rs)
      × ((t : Text) → seen_before (domains_to_resolve rs) t ≡ any (names t) rs)
unfolding domains_to_resolve
domains_to_resolve-lists rs = let c = domains_onto-Collects [] rs tt refl in (c.distinct, c.members)
