-- ===== src/Amnezia/Client/Log.antt =====
-- internal/amnezia/client.go: `wgLogWriter`, which logs what the daemon prints line by line. A chunk may end
-- in the middle of a line.
use outline_gate.Prelude.{
  ℕ, ◌≡◌, refl, sym, ap, ◌∙◌, List, [], ◌∷◌, ◌++◌, if◌then◌else◌, append_assoc, ◌==◌, Bool-cases,
  true, false, inl, inr,
}
use mathlib.Core.Path.{subst}
use outline_gate.Go.SplitLaws.{IsCons, split-IsCons}
use outline_gate.Go.Text.{Text, is_empty, trim_space, split, cons_head}

pub record Writer : Type 0 where
  pub buf : Text
  pub logged : List Text

abbrev log_line : Text → List Text → List Text
log_line line out = if is_empty (trim_space line) then out else out ++ trim_space line ∷ []

-- The loop of `Write`: every line that is complete is logged, and what follows the last one stays.
unfoldable pub take_lines : List Text → List Text → Writer
take_lines [] out = record { buf = []; logged = out }
take_lines (l ∷ []) out = record { buf = l; logged = out }
take_lines (l ∷ k ∷ ls) out = take_lines (k ∷ ls) (log_line l out)

-- `Write`.
unfoldable pub write : Text → Writer → Writer
unfolding take_lines
write p w = take_lines (split b'\n' (w.buf ++ p)) w.logged

-- Two texts one behind the other, each given by its lines.
abbrev glue : List Text → List Text → List Text
glue [] rs = rs
glue (l ∷ []) [] = l ∷ []
glue (l ∷ []) (r ∷ rs) = (l ++ r) ∷ rs
glue (l ∷ k ∷ ls) rs = l ∷ glue (k ∷ ls) rs

glue-nil : (rs : List Text) → IsCons rs → glue ([] ∷ []) rs ≡ rs
glue-nil [] (l, ls, e) = cc
glue-nil (r ∷ rs) h = refl

glue-cons : (l : Text) (ls rs : List Text) → IsCons ls → glue (l ∷ ls) rs ≡ l ∷ glue ls rs
glue-cons l [] rs (k, ks, e) = cc
glue-cons l (k ∷ ls) rs h = refl

glue-cons_head :
    (c : ℕ) (ls rs : List Text)
    → IsCons ls
    → IsCons rs
    → glue (cons_head c ls) rs ≡ cons_head c (glue ls rs)
glue-cons_head c [] rs (l, ls, e) k = cc
glue-cons_head c (l ∷ []) [] h (r, rs, e) = cc
glue-cons_head c (l ∷ []) (r ∷ rs) h k = refl
glue-cons_head c (l ∷ k ∷ ls) rs h _ = refl

split-append : (sep : ℕ) (t q : Text) → split sep (t ++ q) ≡ glue (split sep t) (split sep q)
unfolding split
split-append sep [] q = sym (glue-nil (split sep q) (split-IsCons sep q))
split-append sep (c ∷ t) q =
    let more = split-append sep t q in
    elim (c == sep)
      as (λ b.
        (if b then [] ∷ split sep (t ++ q) else cons_head c (split sep (t ++ q)))
        ≡ glue (if b then [] ∷ split sep t else cons_head c (split sep t)) (split sep q)) [
          | true ↦
              ap (◌∷◌ []) more ∙ sym (glue-cons [] (split sep t) (split sep q) (split-IsCons sep t))
          | false ↦
              ap (cons_head c) more
              ∙ sym (
                  glue-cons_head c (split sep t) (split sep q) (split-IsCons sep t)
                    (split-IsCons sep q))
        ]

-- The text behind the last separator has none.
last_line : List Text → Text
last_line [] = []
last_line (l ∷ []) = l
last_line (l ∷ k ∷ ls) = last_line (k ∷ ls)

take_lines-buf : (ls out : List Text) → (take_lines ls out).buf ≡ last_line ls
unfolding take_lines last_line
take_lines-buf [] out = refl
take_lines-buf (l ∷ []) out = refl
take_lines-buf (l ∷ k ∷ ls) out = take_lines-buf (k ∷ ls) (log_line l out)

last_line-cons : (l : Text) (ls : List Text) → IsCons ls → last_line (l ∷ ls) ≡ last_line ls
unfolding last_line
last_line-cons l [] (k, ks, e) = cc
last_line-cons l (k ∷ ls) h = refl

IsLine : ℕ → Text → Type 0
IsLine sep l = split sep l ≡ l ∷ []

cons_head-IsLine :
    (sep c : ℕ) (ls : List Text)
    → (c == sep) ≡ false
    → IsCons ls
    → IsLine sep (last_line ls)
    → IsLine sep (last_line (cons_head c ls))
unfolding split last_line IsLine
cons_head-IsLine sep c [] ne (l, ls, e) h = cc
cons_head-IsLine sep c (l ∷ []) ne k h = rw (ne, h) refl
cons_head-IsLine sep c (l ∷ k ∷ ls) ne _ h = h

split-IsLine : (sep : ℕ) (t : Text) → IsLine sep (last_line (split sep t))
unfolding split last_line IsLine
split-IsLine sep [] = refl
split-IsLine sep (c ∷ t) = elim (Bool-cases (c == sep)) [
  | inl e ↦ rw e (
      subst (IsLine sep) (sym (last_line-cons [] (split sep t) (split-IsCons sep t)))
        (split-IsLine sep t))
  | inr e ↦ rw e (cons_head-IsLine sep c (split sep t) e (split-IsCons sep t) (split-IsLine sep t))
]

glue-IsCons : (ls rs : List Text) → IsCons ls → IsCons (glue ls rs)
glue-IsCons [] rs (l, ls, e) = cc
glue-IsCons (l ∷ []) [] h = (_, _, refl)
glue-IsCons (l ∷ []) (r ∷ rs) h = (_, _, refl)
glue-IsCons (l ∷ k ∷ ls) rs h = (_, _, refl)

take_lines-cons :
    (l : Text) (ls out : List Text)
    → IsCons ls
    → take_lines (l ∷ ls) out ≡ take_lines ls (log_line l out)
unfolding take_lines
take_lines-cons l [] out (k, ks, e) = cc
take_lines-cons l (k ∷ ls) out h = refl

take_lines-glue :
    (ls rs out : List Text)
    → IsCons ls
    → take_lines (glue ls rs) out
      ≡ take_lines (glue ((take_lines ls out).buf ∷ []) rs) (take_lines ls out).logged
unfolding take_lines
take_lines-glue [] rs out (l, ls, e) = cc
take_lines-glue (l ∷ []) rs out h = refl
take_lines-glue (l ∷ k ∷ ls) rs out h =
    take_lines-cons l (glue (k ∷ ls) rs) out (glue-IsCons (k ∷ ls) rs (k, ls, refl))
    ∙ take_lines-glue (k ∷ ls) rs (log_line l out) (k, ls, refl)

-- Two chunks, one after the other, log the same lines and leave the same rest as the two at once, for any
-- chunks and wherever they are cut.
pub write-append : (p q : Text) (w : Writer) → write q (write p w) ≡ write (p ++ q) w
unfolding write IsLine
write-append p q w =
    let nl : ℕ = b'\n' in
    let t = w.buf ++ p in
    let first = take_lines (split nl t) w.logged in
    let line = subst (IsLine nl) (sym (take_lines-buf (split nl t) w.logged)) (split-IsLine nl t) in
    ap (λ ls. take_lines ls first.logged)
      (split-append nl first.buf q ∙ ap (λ ls. glue ls (split nl q)) line)
    ∙ sym (take_lines-glue (split nl t) (split nl q) w.logged (split-IsCons nl t))
    ∙ ap (λ ls. take_lines ls w.logged)
        (sym (split-append nl t q) ∙ ap (split nl) (append_assoc w.buf p q))
