-- ===== src/Gateway/Elements.antt =====
-- internal/gateway/gateway.go: the elements of a set.
use outline_gate.Prelude.{
  ◌≡◌, refl, ◌∙◌, sym, inl, inr, Bool, true, false, not, ◌&&◌, ◌||◌, List, [], ◌∷◌, arith, any,
  Bool-cases,
}
use outline_gate.Go.Text.{Text, text_eq, text_eq_iff, text_eq_refl}
use outline_gate.Go.Ip.{IpNet, is_nil, to4}
use outline_gate.Go.IpString.{net_string}
use outline_gate.Bypass.Matcher.{seen_before}
use outline_gate.Bypass.Matcher.Names.{DistinctTexts}
use outline_gate.Gateway.Script.{elements_from}

-- A network of IPv4 with the text `t`.
abbrev pub has_text : Text → IpNet → Bool
has_text t n = not (is_nil (to4 n.ip)) && text_eq (net_string n) t

-- The step that keeps a text: `more` are the members of the rest.
kept_member :
    (seen : List Text) (s t : Text) (more : Bool)
    → seen_before seen s ≡ false
    → (text_eq s t || (not (text_eq s t || seen_before seen t) && more))
      ≡ (not (seen_before seen t) && (text_eq s t || more))
kept_member seen s t more fresh = elim (Bool-cases (text_eq s t)) [
  | inl same ↦ rw (same, sym_seen ((text_eq_iff s t).0 same)) refl
  | inr other ↦ rw other refl
]
  where
    sym_seen : s ≡ t → seen_before seen t ≡ false
    sym_seen e = rw (sym e) fresh

-- The step that leaves out a text.
old_member :
    (seen : List Text) (s t : Text) (more : Bool)
    → seen_before seen s ≡ true
    → (not (seen_before seen t) && more) ≡ (not (seen_before seen t) && (text_eq s t || more))
old_member seen s t more old = elim (Bool-cases (text_eq s t)) [
  | inl same ↦ rw (same, old_seen ((text_eq_iff s t).0 same)) refl
  | inr other ↦ rw other refl
]
  where
    old_seen : s ≡ t → seen_before seen t ≡ true
    old_seen e = rw (sym e) old

record Lists (seen : List Text) (ns : List IpNet) (got : List Text) : Type 0 where
  distinct : DistinctTexts got
  members : (t : Text) → seen_before got t ≡ (not (seen_before seen t) && any (has_text t) ns)

elements_from-Lists : (seen : List Text) (ns : List IpNet) → Lists seen ns (elements_from seen ns)
unfolding elements_from
elements_from-Lists seen [] = record { distinct = tt; members = λ t. ground arith }
elements_from-Lists seen (n ∷ ns) =
    let s : Text = net_string n in
    let skipped = elements_from-Lists seen ns in
    let kept = elements_from-Lists (s ∷ seen) ns in
    elim (Bool-cases (is_nil (to4 n.ip))) [
      | inl other ↦ rw other (record {
        distinct = skipped.distinct;
        members = λ t. rw (other, skipped.members t) refl;
      })
      | inr ip4 ↦ elim (Bool-cases (seen_before seen s)) [
        | inl old ↦
            rw (ip4, old)
              (record {
                distinct = skipped.distinct;
                members = λ t.
                    rw (ip4, skipped.members t) (old_member seen s t (any (has_text t) ns) old);
              })
        | inr fresh ↦
            rw (ip4, fresh)
              (record {
                distinct = (kept.members s ∙ rw (text_eq_refl s) refl, kept.distinct);
                members = λ t.
                    rw (ip4, kept.members t) (kept_member seen s t (any (has_text t) ns) fresh);
              })
      ]
    ]

-- The elements that `addIPv4SetElements` writes are the texts of the networks of IPv4, all of them and
-- each once.
pub elements_from-lists :
    (nets : List IpNet)
    → DistinctTexts (elements_from [] nets)
      × ((t : Text) → seen_before (elements_from [] nets) t ≡ any (has_text t) nets)
elements_from-lists nets = let l = elements_from-Lists [] nets in (l.distinct, l.members)
