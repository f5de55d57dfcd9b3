-- ===== src/Go/TextLaws.antt =====
-- Laws of Go's package strings: trimming and lower case.
use mathlib.Core.List.{reverse, reverse-append, reverse-cons}
use mathlib.Core.Path.{ap₂}
use outline_gate.Prelude.{
  ℕ, ◌<◌, ◌≡◌, refl, sym, ap, ◌∙◌, inl, inr, false, ◌&&◌, [], ◌∷◌, ◌++◌, arith, if◌then◌else◌,
  Bool-cases, All,
}
use outline_gate.Go.Text.{Text, is_space, is_empty, trim_left, trim_space}
use outline_gate.Go.Unicode.{Unicode, lower, is_upper_ascii}

-- Trimming at the end, by recursion on the text.
abbrev pub trim_right : Text → Text
trim_right [] = []
trim_right (c ∷ s) = let r = trim_right s in if is_empty r && is_space c then [] else c ∷ r

trim_left-append :
    (s : Text) (c : ℕ)
    → trim_left (s ++ c ∷ [])
      ≡ (if is_empty (trim_left s) then trim_left (c ∷ []) else trim_left s ++ c ∷ [])
unfolding trim_left
trim_left-append [] c = refl
trim_left-append (x ∷ s) c = ground (arith, trim_left-append s c)

is_empty-reverse : (s : Text) → is_empty (reverse s) ≡ is_empty s
is_empty-reverse [] = refl
is_empty-reverse (x ∷ s) = rw (reverse-append (x ∷ []) s) (go (reverse s))
  where
    go : (t : Text) → is_empty (t ++ x ∷ []) ≡ false
    go [] = refl
    go (y ∷ t) = refl

reverse-if :
    (x : Text) (c : ℕ)
    → reverse (if is_empty x then trim_left (c ∷ []) else x ++ c ∷ [])
      ≡ (if is_empty (reverse x) && is_space c then [] else c ∷ reverse x)
unfolding trim_left
reverse-if [] c = elim (Bool-cases (is_space c)) [ inl e ↦ rw e | inr e ↦ rw e ]
reverse-if (y ∷ x) c = reverse-append (y ∷ x) (c ∷ []) ∙ rw (is_empty-reverse (y ∷ x))

reverse-trim_left : (s : Text) → reverse (trim_left (reverse s)) ≡ trim_right s
reverse-trim_left [] = unfold trim_left in refl
reverse-trim_left (c ∷ s) =
    ap (λ t. reverse (trim_left t)) (reverse-cons c s)
    ∙ ap reverse (trim_left-append (reverse s) c)
    ∙ reverse-if (trim_left (reverse s)) c
    ∙ rw (reverse-trim_left s)

pub trim_space-right : (s : Text) → trim_space s ≡ trim_right (trim_left s)
unfolding trim_space
trim_space-right s = reverse-trim_left (trim_left s)

trim_right_idem : (s : Text) → trim_right (trim_right s) ≡ trim_right s
trim_right_idem [] = refl
trim_right_idem (c ∷ s) = ground (arith, trim_right_idem s)

trim_left_idem : (s : Text) → trim_left (trim_left s) ≡ trim_left s
unfolding trim_left
trim_left_idem [] = refl
trim_left_idem (c ∷ s) = ground (arith, trim_left_idem s)

trim_left-right : (s : Text) → trim_left (trim_right (trim_left s)) ≡ trim_right (trim_left s)
unfolding trim_left
trim_left-right [] = refl
trim_left-right (c ∷ s) = ground (arith, trim_left-right s)

pub trim_space_idem : (s : Text) → trim_space (trim_space s) ≡ trim_space s
trim_space_idem s =
    trim_space-right (trim_space s)
    ∙ ap (λ t. trim_right (trim_left t)) (trim_space-right s)
    ∙ rw (trim_left-right s, trim_right_idem (trim_left s)) (sym (trim_space-right s))

module _ (u : Unicode) where
  is_empty-lower : (s : Text) → is_empty (lower u s) ≡ is_empty s
  is_empty-lower [] = refl
  is_empty-lower (c ∷ s) = refl

  trim_left-lower : (s : Text) → trim_left (lower u s) ≡ lower u (trim_left s)
  unfolding trim_left
  trim_left-lower [] = refl
  trim_left-lower (c ∷ s) = ground (arith, u.is_space-to_lower c, trim_left-lower s)

  trim_right-lower : (s : Text) → trim_right (lower u s) ≡ lower u (trim_right s)
  trim_right-lower [] = refl
  trim_right-lower (c ∷ s) =
      ground (arith, u.is_space-to_lower c, trim_right-lower s, is_empty-lower (trim_right s))

  -- Trimming and lower case commute.
  pub trim_space-lower : (s : Text) → trim_space (lower u s) ≡ lower u (trim_space s)
  trim_space-lower s =
      trim_space-right (lower u s)
      ∙ ap trim_right (trim_left-lower s)
      ∙ trim_right-lower (trim_left s)
      ∙ ap (lower u) (sym (trim_space-right s))

  pub lower_idem : (s : Text) → lower u (lower u s) ≡ lower u s
  lower_idem [] = refl
  lower_idem (c ∷ s) = ap₂ ◌∷◌ (u.to_lower_idem c) (lower_idem s)

-- No blank stands in the text.
abbrev pub NoSpace : Text → Type 0
NoSpace = All (λ c. is_space c ≡ false)

trim_left-NoSpace : (s : Text) → NoSpace s → trim_left s ≡ s
unfolding trim_left
trim_left-NoSpace [] h = refl
trim_left-NoSpace (c ∷ s) h = rw h.0

trim_right-NoSpace : (s : Text) → NoSpace s → trim_right s ≡ s
trim_right-NoSpace [] h = refl
trim_right-NoSpace (c ∷ s) h = ground (arith, trim_right-NoSpace s h.1)

pub trim_space-NoSpace : (s : Text) → NoSpace s → trim_space s ≡ s
trim_space-NoSpace s h = trim_space-right s ∙ rw (trim_left-NoSpace s h, trim_right-NoSpace s h)

-- ASCII without capitals is its own lower case.
abbrev pub IsSmall : ℕ → Type 0
IsSmall c = (c < 128) × (is_upper_ascii c ≡ false)

pub lower_small : (u : Unicode) (s : Text) → All IsSmall s → lower u s ≡ s
lower_small u [] h = refl
lower_small u (c ∷ s) h = ap₂ ◌∷◌ (u.to_lower_ascii c h.0.0 ∙ rw h.0.1) (lower_small u s h.1)
