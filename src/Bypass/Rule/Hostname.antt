-- ===== src/Bypass/Rule/Hostname.antt =====
-- internal/bypass/rule.go: the characters of a name that `validateHostname` accepts.
use outline_gate.Prelude.{
  ℕ, ◌<◌, ◌≡◌, refl, sym, ap, ◌∙◌, inl, inr, Bool, true, false, ◌||◌, List, [], ◌∷◌, none, arith,
  ◌==◌, all, All, Bool-cases,
}
use outline_gate.Go.Text.{Text, is_empty, is_space, has_suffix, contains, split, cons_head}
use outline_gate.Go.TextLaws.{NoSpace}
use outline_gate.Go.Unicode.{Unicode}
use outline_gate.Bypass.Rule.{check_label, check_labels, validate_hostname, label_char, dot}

-- A character of a host name.
abbrev pub host_char : Unicode → ℕ → Bool
host_char u c = label_char u c || c == b'.'

abbrev pub IsHost : Unicode → Text → Type 0
IsHost u = All (λ c. host_char u c ≡ true)

abbrev Labels : Unicode → List Text → Type 0
Labels u = All (λ l. all (label_char u) l ≡ true)

check_label-chars : (u : Unicode) (l : Text) → check_label u l ≡ none → all (label_char u) l ≡ true
unfolding check_label
check_label-chars u l h = elim (Bool-cases (all (label_char u) l)) [
  | inl e ↦ e
  | inr e ↦ ground arith
]

check_labels-Labels : (u : Unicode) (ls : List Text) → check_labels u ls ≡ none → Labels u ls
unfolding check_labels
check_labels-Labels u [] h = tt
check_labels-Labels u (l ∷ ls) h = ground (arith, check_label-chars u l, check_labels-Labels u ls)

Labels-cons_head :
    (u : Unicode) (c : ℕ) (ls : List Text)
    → Labels u (cons_head c ls)
    → (label_char u c ≡ true) × Labels u ls
Labels-cons_head u c [] h = ground arith
Labels-cons_head u c (x ∷ xs) h = ground arith

Labels-split : (u : Unicode) (s : Text) → Labels u (split b'.' s) → IsHost u s
unfolding split
Labels-split u [] h = tt
Labels-split u (c ∷ s) h = elim (Bool-cases (c == b'.')) [
  | inl e ↦
      let k : Labels u ([] ∷ split b'.' s) = rw e at h in
      (rw e (ground arith), Labels-split u s k.1)
  | inr e ↦
      let k = Labels-cons_head u c (split b'.' s) (rw e at h) in (rw k.0, Labels-split u s k.1)
]

-- What a valid name is made of, and that it does not end in a dot.
pub record IsValidHost (u : Unicode) (host : Text) : Type 0 where
  pub chars : IsHost u host
  pub some_text : is_empty host ≡ false
  pub no_dot : has_suffix host dot ≡ false

pub validate_hostname-IsValidHost :
    (u : Unicode) (host : Text) → validate_hostname u host ≡ none → IsValidHost u host
unfolding validate_hostname
validate_hostname-IsValidHost u host h =
    let k : check_labels u (split b'.' host) ≡ none = ground arith in
    record {
      chars = Labels-split u host (check_labels-Labels u (split b'.' host) k);
      some_text = ground arith;
      no_dot = ground arith;
    }

-- ASCII marks are no characters of a host name.
pub host_char-mark : (u : Unicode) (c : ℕ) → c < 45 → host_char u c ≡ false
host_char-mark u c h = ground (arith, u.is_letter_ascii c, u.is_digit_ascii_eq c)

pub host_char-slash : (u : Unicode) → host_char u b'/' ≡ false
host_char-slash u = ground (arith, u.is_letter_ascii b'/', u.is_digit_ascii_eq b'/')

host_char-space : (u : Unicode) (c : ℕ) → host_char u c ≡ true → is_space c ≡ false
host_char-space u c h = ground (arith, u.letter_not_space c, u.digit_not_space c)

pub IsHost-NoSpace : (u : Unicode) (s : Text) → IsHost u s → NoSpace s
IsHost-NoSpace u [] h = tt
IsHost-NoSpace u (c ∷ s) h = (host_char-space u c h.0, IsHost-NoSpace u s h.1)

-- A character that no host name has is not in one.
pub IsHost-contains :
    (u : Unicode) (d : ℕ) (s : Text) → host_char u d ≡ false → IsHost u s → contains s d ≡ false
IsHost-contains u d [] e h = refl
IsHost-contains u d (c ∷ s) e h = elim (Bool-cases (c == d)) [
  | inl same ↦ let p : c ≡ d = ground arith in cc (sym h.0 ∙ ap (host_char u) p ∙ e)
  | inr other ↦ rw other (IsHost-contains u d s e h.1)
]
