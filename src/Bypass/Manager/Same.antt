-- ===== src/Bypass/Manager/Same.antt =====
-- internal/bypass/manager.go: `sameNets` compares two lists of nets as multisets of their texts.
use outline_gate.Prelude.{
  ℕ, suc, ◌+◌, ◌-◌, ◌≤◌, ◌≡◌, ◌↔◌, refl, sym, ◌∙◌, ap, inl, inr, true, false, List, [], ◌∷◌, arith,
  ◌==◌, if◌then◌else◌, length, Bool-cases,
}
use outline_gate.Go.Text.{Text, text_eq, text_eq_iff}
use outline_gate.Go.Ip.{IpNet}
use outline_gate.Go.IpString.{net_string}
use outline_gate.Bypass.Manager.{same_nets, spend_nets, count_nets, increment, decrement}

-- How many nets of a list have a text.
abbrev pub tally : Text → List IpNet → ℕ
tally t [] = 0
tally t (n ∷ ns) = if text_eq t (net_string n) then suc (tally t ns) else tally t ns

-- The list without the first net that has a text.
abbrev without : Text → List IpNet → List IpNet
without k [] = []
without k (n ∷ ns) = if text_eq k (net_string n) then ns else n ∷ without k ns

text_eq_refl : (t : Text) → text_eq t t ≡ true
text_eq_refl t = (text_eq_iff t t).1 refl

count_nets-tally : (a : List IpNet) (c : Text → ℕ) (t : Text) → count_nets a c t ≡ c t + tally t a
unfolding count_nets
count_nets-tally [] c t = omega arith
count_nets-tally (n ∷ ns) c t = ground (arith, count_nets-tally ns (increment (net_string n) c) t)

tally-text : (k t : Text) (ns : List IpNet) → text_eq t k ≡ true → tally t ns ≡ tally k ns
tally-text k t ns h = ap (λ x. tally x ns) ((text_eq_iff t k).0 h)

tally-without :
    (k : Text) (a : List IpNet) (t : Text)
    → tally t (without k a) ≡ (if text_eq t k then tally t a - 1 else tally t a)
tally-without k [] t = ground arith
tally-without k (n ∷ a) t = ground (
  arith,
  tally-without k a t,
  text_eq_iff t k,
  text_eq_iff t (net_string n),
  text_eq_iff k (net_string n),
)

length-without : (k : Text) (a : List IpNet) → 1 ≤ tally k a → length a ≡ suc (length (without k a))
length-without k [] h = absurd (omega arith)
length-without k (n ∷ a) h = ground (arith, length-without k a)

-- Every text is in `b` no more often than in `a`.
abbrev Within : List IpNet → List IpNet → Type 0
Within b a = (t : Text) → tally t b ≤ tally t a

tally-head : (n : IpNet) (ns : List IpNet) → 1 ≤ tally (net_string n) (n ∷ ns)
tally-head n ns = rw (text_eq_refl (net_string n)) (omega arith)

Within-without :
    (n : IpNet) (b a : List IpNet) → Within (n ∷ b) a → Within b (without (net_string n) a)
Within-without n b a w t = ground (arith, w t, tally-without (net_string n) a t)

head-Within : (n : IpNet) (b a : List IpNet) → Within (n ∷ b) a → 1 ≤ tally (net_string n) a
head-Within n b a w = omega (arith, tally-head n b, w (net_string n))

length-Within : (b a : List IpNet) → Within b a → length b ≤ length a
length-Within [] a w = omega arith
length-Within (n ∷ b) a w = omega (
  arith,
  length-Within b (without (net_string n) a) (Within-without n b a w),
  length-without (net_string n) a (head-Within n b a w),
)

-- Lists of one length, one within the other, are within each other.
Within-back : (b a : List IpNet) → Within b a → length a ≡ length b → Within a b
Within-back [] [] w e t = omega arith
Within-back [] (x ∷ a) w e t = absurd (omega arith)
Within-back (n ∷ b) a w e t =
    let k : Text = net_string n in
    let long = length-without k a (head-Within n b a w) in
    let less = Within-back b (without k a) (Within-without n b a w) (omega (arith, long)) t in
    ground (arith, less, tally-without k a t)

module _ (n : IpNet) (b : List IpNet) (c : Text → ℕ) where
  spend_nets-stops : (c (net_string n) == 0) ≡ true → spend_nets (n ∷ b) c ≡ false
  unfolding spend_nets
  spend_nets-stops h = rw (spend_nets, h) refl

  spend_nets-goes :
      (c (net_string n) == 0) ≡ false
      → spend_nets (n ∷ b) c ≡ spend_nets b (decrement (net_string n) c)
  unfolding spend_nets
  spend_nets-goes h = rw (spend_nets, h) refl

-- What is left of a count once one text is spent.
module _ (k t : Text) (c : Text → ℕ) (m : ℕ) where
  decrement-above :
      (c k == 0) ≡ false → m ≤ decrement k c t → (if text_eq t k then suc m else m) ≤ c t
  decrement-above z h = elim (Bool-cases (text_eq t k)) [
    | inl same ↦
        let e : c t ≡ c k = ap c ((text_eq_iff t k).0 same) in ground (arith, same, e, z, h)
    | inr other ↦ ground (arith, other, h)
  ]

  decrement-below : (if text_eq t k then suc m else m) ≤ c t → m ≤ decrement k c t
  decrement-below h = ground (arith, h)

spend_nets_sound :
    (b : List IpNet) (c : Text → ℕ) → spend_nets b c ≡ true → (t : Text) → tally t b ≤ c t
spend_nets_sound [] c h t = omega arith
spend_nets_sound (n ∷ b) c h t = elim (Bool-cases (c (net_string n) == 0)) [
  | inl spent ↦ absurd (cc (h, spend_nets-stops n b c spent))
  | inr left ↦
      decrement-above (net_string n) t c (tally t b) left
        (spend_nets_sound b (decrement (net_string n) c) (sym (spend_nets-goes n b c left) ∙ h) t)
]

spend_nets_total :
    (b : List IpNet) (c : Text → ℕ) → ((t : Text) → tally t b ≤ c t) → spend_nets b c ≡ true
unfolding spend_nets
spend_nets_total [] c h = refl
spend_nets_total (n ∷ b) c h =
    let k : Text = net_string n in
    let left : (c k == 0) ≡ false = positive (c k) (omega (arith, h k, tally-head n b)) in
    spend_nets-goes n b c left
    ∙ spend_nets_total b (decrement k c) (λ t. decrement-below k t c (tally t b) (h t))
  where
    positive : (x : ℕ) → 1 ≤ x → (x == 0) ≡ false
    positive x l = ground arith

-- `sameNets` answers yes exactly if every text is that of as many nets in one list as in the other.
pub same_nets_iff :
    (a b : List IpNet) → (same_nets a b ≡ true) ↔ ((t : Text) → tally t a ≡ tally t b)
unfolding same_nets
same_nets_iff a b = (
  λ h t.
      let lengths : length a ≡ length b = ground (arith, h) in
      let spends : spend_nets b (count_nets a (λ t. 0)) ≡ true = ground (arith, h) in
      let w : Within b a =
        λ t. omega (arith, count_nets-tally a (λ t. 0) t, spend_nets_sound b _ spends t) in
      omega (arith, w t, Within-back b a w lengths t),
  λ e.
      let there : Within b a = λ t. omega (arith, e t) in
      let back : Within a b = λ t. omega (arith, e t) in
      let spends =
        spend_nets_total b (count_nets a (λ t. 0))
          (λ t. omega (arith, count_nets-tally a (λ t. 0) t, e t)) in
      ground (arith, spends, length-Within b a there, length-Within a b back),
)
