-- ===== src/Bypass/RulesFile/RoundTrip.antt =====
-- internal/bypass/store.go: a rules file that `persistLocked` wrote reads back as the same rules.
use outline_gate.Prelude.{
  ℕ, ◌+◌, ◌≡◌, refl, sym, ap, ◌∙◌, false, List, [], ◌∷◌, ◌++◌, append_assoc, append-nil, arith,
  ◌==◌, All,
}
use outline_gate.Prelude.Result.{ok, ◌>>=◌}
use outline_gate.Go.Text.{Text, trim_space, split, cons_head}
use outline_gate.Go.TextLaws.{NoSpace, trim_space-NoSpace}
use outline_gate.Go.Unicode.{Unicode}
use outline_gate.Bypass.Rule.{Rule}
use outline_gate.Bypass.Rule.Canonical.{IsCanonical}
use outline_gate.Bypass.Matcher.{seen_before}
use outline_gate.Bypass.RulesFile.{
  Scan, scan_line, scan_lines, empty_scan, parse_rules_file, render_rules, render_file, NotRaw,
  DistinctRaws, text_eq_sym, scan_line,
}

split-line : (s rest : Text) → NoSpace s → split b'\n' (s ++ b'\n' ∷ rest) ≡ s ∷ split b'\n' rest
unfolding split
split-line [] rest h = refl
split-line (c ∷ s) rest h =
    let other : (c == b'\n') ≡ false = ground arith in
    rw other (ap (cons_head c) (split-line s rest h.1))

scan_line-rule :
    (u : Unicode) (i : ℕ) (r : Rule) (c : Scan)
    → IsCanonical u r
    → seen_before c.seen r.raw ≡ false
    → scan_line u i r.raw c ≡ ok (record { seen = r.raw ∷ c.seen; rules = c.rules ++ r ∷ [] })
unfolding scan_line
scan_line-rule u i r c k n =
    rw (trim_space-NoSpace r.raw k.no_space, k.some_text, k.no_comment, k.reads, n)

-- No rule of the list has its text among the keys.
abbrev Unseen : List Text → List Rule → Type 0
Unseen seen = All (λ r. seen_before seen r.raw ≡ false)

Unseen-more :
    (t : Text) (seen : List Text) (rs : List Rule)
    → NotRaw t rs
    → Unseen seen rs
    → Unseen (t ∷ seen) rs
Unseen-more t seen [] n h = tt
Unseen-more t seen (r ∷ rs) n h =
    (ground (arith, text_eq_sym r.raw t), Unseen-more t seen rs n.1 h.1)

Unseen-none : (rs : List Rule) → Unseen [] rs
Unseen-none [] = tt
Unseen-none (r ∷ rs) = (refl, Unseen-none rs)

-- The lines of rules in canonical form add these rules to what was collected.
scan_lines-render_rules :
    (u : Unicode) (i : ℕ) (rs : List Rule) (c : Scan)
    → All (IsCanonical u) rs
    → DistinctRaws rs
    → Unseen c.seen rs
    → (scan_lines u i (split b'\n' (render_rules rs)) c >>= λ s. ok s.rules) ≡ ok (c.rules ++ rs)
unfolding scan_lines scan_line render_rules split trim_space
scan_lines-render_rules u i [] c k d n = ap ok (sym (append-nil c.rules))
scan_lines-render_rules u i (r ∷ rs) c k d n =
    let next : Scan = record { seen = r.raw ∷ c.seen; rules = c.rules ++ r ∷ [] } in
    ap (λ ls. scan_lines u i ls c >>= λ s. ok s.rules)
      (split-line r.raw (render_rules rs) k.0.no_space)
    ∙ ap
        (λ m.
          (m >>= λ t. scan_lines u (i + 1) (split b'\n' (render_rules rs)) t) >>= λ s. ok s.rules)
        (scan_line-rule u i r c k.0 n.0)
    ∙ scan_lines-render_rules u (i + 1) rs next k.1 d.1 (Unseen-more r.raw c.seen rs d.0 n.1)
    ∙ ap ok (append_assoc c.rules (r ∷ []) rs)

-- The file that the store writes for rules in canonical form, no two of which have one text, is read
-- back as the same rules in the same order.
pub parse_rules_file-render_file :
    (u : Unicode) (rs : List Rule)
    → All (IsCanonical u) rs
    → DistinctRaws rs
    → parse_rules_file u (render_file rs) ≡ ok rs
unfolding parse_rules_file render_file split scan_lines scan_line trim_space
parse_rules_file-render_file u rs k d =
    scan_lines-render_rules u 1 rs empty_scan k d (Unseen-none rs)
