-- ===== src/Go/TrimLaws.antt =====
-- Laws of Go's package strings: what stands around a text, and lines.
use mathlib.Core.List.{reverse-append}
use outline_gate.Prelude.{
  ℕ, ◌≡◌, refl, sym, ap, ◌∙◌, inl, inr, true, false, ◌&&◌, [], ◌∷◌, ◌++◌, some, arith,
  if◌then◌else◌, Bool-cases, All, ◌==◌,
}
use outline_gate.Go.Text.{
  Text, is_space, is_empty, trim_left, trim_space, split, cons_head, contains, has_suffix,
}
use outline_gate.Go.TextLaws.{trim_right, trim_space-right}
use outline_gate.Go.HostPort.{cut, cut_cons}

-- Nothing but blanks.
abbrev pub Blank : Text → Type 0
Blank = All (λ c. is_space c ≡ true)

-- No blank at either end.
pub record Trimmed (s : Text) : Type 0 where
  pub left : trim_left s ≡ s
  pub right : trim_right s ≡ s

pub trim_space-Trimmed : (s : Text) → Trimmed s → trim_space s ≡ s
trim_space-Trimmed s t = trim_space-right s ∙ ap trim_right t.left ∙ t.right

trim_left-Blank : (p s : Text) → Blank p → trim_left (p ++ s) ≡ trim_left s
unfolding trim_left
trim_left-Blank [] s b = refl
trim_left-Blank (c ∷ p) s b = rw b.0 (trim_left-Blank p s b.1)

trim_right-Blank : (q : Text) → Blank q → trim_right q ≡ []
trim_right-Blank [] b = refl
trim_right-Blank (c ∷ q) b = rw (trim_right-Blank q b.1, b.0) refl

trim_right-before : (s q : Text) → Blank q → trim_right (s ++ q) ≡ trim_right s
trim_right-before [] q b = trim_right-Blank q b
trim_right-before (c ∷ s) q b = rw (trim_right-before s q b) refl

trimmed-before : (s q : Text) → Blank q → trim_right (trim_left (s ++ q)) ≡ trim_right (trim_left s)
unfolding trim_left
trimmed-before [] [] b = refl
trimmed-before [] (c ∷ q) b = rw b.0 (trimmed-before [] q b.1)
trimmed-before (c ∷ s) q b = elim (Bool-cases (is_space c)) [
  | inl e ↦ rw e (trimmed-before s q b)
  | inr e ↦ rw e (trim_right-before (c ∷ s) q b)
]

-- Blanks around a text do not matter.
pub trim_space-around :
    (p s q : Text) → Blank p → Blank q → trim_space (p ++ (s ++ q)) ≡ trim_space s
trim_space-around p s q b d =
    trim_space-right (p ++ (s ++ q))
    ∙ ap trim_right (trim_left-Blank p (s ++ q) b)
    ∙ trimmed-before s q d
    ∙ sym (trim_space-right s)

trim_right-append :
    (a v : Text) → is_empty (trim_right v) ≡ false → trim_right (a ++ v) ≡ a ++ trim_right v
trim_right-append [] v n = refl
trim_right-append (x ∷ a) v n = rw (trim_right-append a v n) (some_tail a)
  where
    some_tail :
        (a : Text)
        → (if is_empty (a ++ trim_right v) && is_space x then [] else x ∷ (a ++ trim_right v))
          ≡ x ∷ (a ++ trim_right v)
    some_tail [] = rw n refl
    some_tail (y ∷ a) = refl

-- A text that begins with no blank and ends in one that is trimmed.
pub trim_space-ends :
    (c : ℕ) (s v : Text)
    → is_space c ≡ false
    → Trimmed v
    → is_empty v ≡ false
    → trim_space (c ∷ (s ++ v)) ≡ c ∷ (s ++ v)
unfolding trim_left
trim_space-ends c s v h t n =
    trim_space-right (c ∷ (s ++ v))
    ∙ ap trim_right {x = trim_left (c ∷ (s ++ v))} {y = c ∷ (s ++ v)} (rw h refl)
    ∙ trim_right-append (c ∷ s) v (ap is_empty t.right ∙ n)
    ∙ ap (λ w. c ∷ (s ++ w)) t.right

-- A text that begins with a mark begins with it when it is trimmed.
pub trim_space-mark :
    (c : ℕ) (s : Text) → is_space c ≡ false → trim_space (c ∷ s) ≡ c ∷ trim_right s
unfolding trim_left
trim_space-mark c s h = trim_space-right (c ∷ s) ∙ rw h (kept (trim_right s))
  where
    kept : (r : Text) → (if is_empty r && is_space c then [] else c ∷ r) ≡ c ∷ r
    kept [] = rw h refl
    kept (x ∷ r) = refl

-- A line is split off.
pub split-line_of :
    (sep : ℕ) (s rest : Text)
    → contains s sep ≡ false
    → split sep (s ++ (sep ∷ rest)) ≡ s ∷ split sep rest
unfolding split
split-line_of sep [] rest h = ground arith
split-line_of sep (c ∷ s) rest h =
    let other : (c == sep) ≡ false = ground arith in
    let more : contains s sep ≡ false = ground arith in
    rw other (ap (cons_head c) (split-line_of sep s rest more))

pub cut-first :
    (sep : ℕ) (a b : Text) → contains a sep ≡ false → cut sep (a ++ (sep ∷ b)) ≡ some (a, b)
unfolding cut
cut-first sep [] b h = ground arith
cut-first sep (c ∷ a) b h =
    let other : (c == sep) ≡ false = ground arith in
    let more : contains a sep ≡ false = ground arith in
    rw other (ap (cut_cons c) (cut-first sep a b more))

pub has_suffix-last : (s : Text) (c : ℕ) → has_suffix (s ++ c ∷ []) (c ∷ []) ≡ true
unfolding has_suffix
has_suffix-last s c = rw (reverse-append s (c ∷ [])) (ground arith)

pub contains-append :
    (s t : Text) (c : ℕ) → contains s c ≡ false → contains t c ≡ false → contains (s ++ t) c ≡ false
contains-append [] t c h k = k
contains-append (x ∷ s) t c h k = ground (arith, contains-append s t c)
