-- ===== src/Go/SplitLaws.antt =====
-- package strings: what splitting a text gives.
use outline_gate.Prelude.{
  ℕ, ◌≡◌, refl, sym, ap, ◌∙◌, List, [], ◌∷◌, ◌==◌, ==_iff, if-both, Bool-cases, inl, inr,
}
use outline_gate.Go.Text.{Text, split, join, cons_head}

-- A split gives at least one part.
abbrev pub IsCons : List Text → Type 0
IsCons ls = (l : Text) × (rest : List Text) × (ls ≡ l ∷ rest)

cons_head-IsCons : (c : ℕ) (ls : List Text) → IsCons (cons_head c ls)
cons_head-IsCons c [] = (_, _, refl)
cons_head-IsCons c (l ∷ ls) = (_, _, refl)

pub split-IsCons : (sep : ℕ) (t : Text) → IsCons (split sep t)
unfolding split
split-IsCons sep [] = (_, _, refl)
split-IsCons sep (c ∷ t) =
    if-both IsCons (c == sep) _ _ (_, _, refl) (cons_head-IsCons c (split sep t))

join-cons_head : (sep : Text) (c : ℕ) (ls : List Text) → join sep (cons_head c ls) ≡ c ∷ join sep ls
unfolding join
join-cons_head sep c [] = refl
join-cons_head sep c (l ∷ []) = refl
join-cons_head sep c (l ∷ k ∷ ls) = refl

join-cons :
    (sep : ℕ) (ls : List Text) → IsCons ls → join (sep ∷ []) ([] ∷ ls) ≡ sep ∷ join (sep ∷ []) ls
unfolding join
join-cons sep [] (l, ls, e) = cc
join-cons sep (l ∷ ls) h = refl

-- Joining what was split gives the text back.
pub join-split : (sep : ℕ) (s : Text) → join (sep ∷ []) (split sep s) ≡ s
unfolding split join
join-split sep [] = refl
join-split sep (c ∷ s) = elim (Bool-cases (c == sep)) [
  | inl e ↦ rw e (
      join-cons sep (split sep s) (split-IsCons sep s)
      ∙ ap (λ (x : ℕ). x ∷ join (sep ∷ []) (split sep s)) (sym ((==_iff c sep).0 e))
      ∙ ap (◌∷◌ c) (join-split sep s))
  | inr e ↦ rw e (join-cons_head (sep ∷ []) c (split sep s) ∙ ap (◌∷◌ c) (join-split sep s))
]
