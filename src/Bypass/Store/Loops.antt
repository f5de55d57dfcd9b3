-- ===== src/Bypass/Store/Loops.antt =====
-- internal/bypass/store.go: what the loops that collect rules give has no two rules with one text.
use outline_gate.Prelude.{
  ℕ, ◌+◌, ◌≡◌, inl, inr, false, ◌||◌, List, [], ◌∷◌, ◌++◌, none, arith, All-append, Bool-cases,
}
use outline_gate.Prelude.Result.{Result, ok, err, ◌>>=◌}
use outline_gate.Go.Text.{Text, codes, trim_space, has_prefix, text_eq, is_empty, split}
use outline_gate.Go.Unicode.{Unicode}
use outline_gate.Bypass.Rule.{Rule, RuleError, parse_rule}
use outline_gate.Bypass.Matcher.{seen_before}
use outline_gate.Bypass.RulesFile.{
  Scan, FileError, at_line, keep_rule, empty_scan, scan_line, scan_lines, parse_rules_file, NotRaw,
  DistinctRaws, text_eq_sym,
}
use outline_gate.Bypass.Store.{scan_rules, find_raw, without_raw}

pub DistinctRaws-append :
    (rs : List Rule) (r : Rule) → DistinctRaws rs → NotRaw r.raw rs → DistinctRaws (rs ++ r ∷ [])
DistinctRaws-append [] r d n = (tt, tt)
DistinctRaws-append (x ∷ rs) r d n = (
  All-append (λ q. text_eq q.raw x.raw ≡ false) rs (r ∷ []) d.0 (text_eq_sym x.raw r.raw n.0, tt),
  DistinctRaws-append rs r d.1 n.1,
)

-- The keys of `seen` are the texts of the rules kept, so a rule whose text is no key is new.
pub record IsScan (c : Scan) : Type 0 where
  pub distinct : DistinctRaws c.rules
  pub covers : (t : Text) → seen_before c.seen t ≡ false → NotRaw t c.rules

keep_rule-IsScan : (r : Rule) (c : Scan) → IsScan c → IsScan (keep_rule r c)
keep_rule-IsScan r c v = elim (Bool-cases (seen_before c.seen r.raw)) [
  | inl old ↦ rw old v
  | inr new ↦ rw new (record {
    distinct = DistinctRaws-append c.rules r v.distinct (v.covers r.raw new);
    covers = λ t h.
        All-append (λ q. text_eq q.raw t ≡ false) c.rules (r ∷ []) (v.covers t (ground arith))
          (ground arith, tt);
  })
]

pub empty_scan-IsScan : IsScan empty_scan
empty_scan-IsScan = record { distinct = tt; covers = λ t h. tt }

abbrev pub Scanned : {E : Type 0} → Result E Scan → Type 0
Scanned (ok c) = IsScan c
Scanned (err e) = Unit {0}

Scanned-bind :
    {E : Type 0} (m : Result E Scan) (f : Scan → Result E Scan)
    → Scanned m
    → ((c : Scan) → IsScan c → Scanned (f c))
    → Scanned (m >>= f)
Scanned-bind (ok c) f h k = k c h
Scanned-bind (err e) f h k = tt

scan_parsed :
    (i : ℕ) (p : Result RuleError Rule) (c : Scan)
    → IsScan c
    → Scanned {E = FileError}
        (elim p [ err e ↦ err (at_line (i + 1) e) | ok r ↦ ok (keep_rule r c) ])
scan_parsed i (ok r) c v = keep_rule-IsScan r c v
scan_parsed i (err e) c v = tt

scan_line-IsScan :
    (u : Unicode) (i : ℕ) (l : Text) (c : Scan) → IsScan c → Scanned (scan_line u i l c)
unfolding scan_line
scan_line-IsScan u i l c v =
    elim (Bool-cases (is_empty (trim_space l) || has_prefix (trim_space l) (codes "#"))) [
      | inl skip ↦ rw skip v
      | inr rule ↦ rw rule (scan_parsed i (parse_rule u (trim_space l)) c v)
    ]

scan_lines-IsScan :
    (u : Unicode) (i : ℕ) (ls : List Text) (c : Scan) → IsScan c → Scanned (scan_lines u i ls c)
unfolding scan_lines
scan_lines-IsScan u i [] c v = v
scan_lines-IsScan u i (l ∷ ls) c v =
    Scanned-bind (scan_line u i l c) (scan_lines u (i + 1) ls) (scan_line-IsScan u i l c v)
      (scan_lines-IsScan u (i + 1) ls)

Scanned-rule :
    (m : Result RuleError Rule) (f : Rule → Result RuleError Scan)
    → ((r : Rule) → Scanned (f r))
    → Scanned (m >>= f)
Scanned-rule (ok r) f k = k r
Scanned-rule (err e) f k = tt

pub scan_rules-IsScan :
    (u : Unicode) (rs : List Rule) (c : Scan) → IsScan c → Scanned (scan_rules u rs c)
unfolding scan_rules
scan_rules-IsScan u [] c v = v
scan_rules-IsScan u (r ∷ rs) c v =
    Scanned-rule (parse_rule u r.raw) (λ q. scan_rules u rs (keep_rule q c))
      (λ q. scan_rules-IsScan u rs (keep_rule q c) (keep_rule-IsScan q c v))

-- A predicate on the rules that a read of a file or a list of rules gives.
abbrev pub Reads : {E : Type 0} → Result E (List Rule) → Type 0
Reads (ok rs) = DistinctRaws rs
Reads (err e) = Unit {0}

-- A rules file that is read has no two rules with the same text.
pub parse_rules_file-DistinctRaws : (u : Unicode) (text : Text) → Reads (parse_rules_file u text)
unfolding parse_rules_file
parse_rules_file-DistinctRaws u text =
    finish (scan_lines u 0 (split b'\n' text) empty_scan)
      (scan_lines-IsScan u 0 (split b'\n' text) empty_scan empty_scan-IsScan)
  where
    finish : (m : Result FileError Scan) → Scanned m → Reads (m >>= λ s. ok s.rules)
    finish (ok c) v = v.distinct
    finish (err e) v = tt

pub find_raw-none : (t : Text) (rs : List Rule) → find_raw t rs ≡ none → NotRaw t rs
unfolding find_raw
find_raw-none t [] h = tt
find_raw-none t (r ∷ rs) h = ground (arith, find_raw-none t rs)

without_raw-NotRaw : (t k : Text) (rs : List Rule) → NotRaw k rs → NotRaw k (without_raw t rs)
unfolding without_raw
without_raw-NotRaw t k [] h = tt
without_raw-NotRaw t k (r ∷ rs) h = ground (arith, without_raw-NotRaw t k rs h.1)

pub without_raw-DistinctRaws :
    (t : Text) (rs : List Rule) → DistinctRaws rs → DistinctRaws (without_raw t rs)
unfolding without_raw
without_raw-DistinctRaws t [] h = tt
without_raw-DistinctRaws t (r ∷ rs) h =
    ground (arith, without_raw-DistinctRaws t rs h.1, without_raw-NotRaw t r.raw rs h.0)
