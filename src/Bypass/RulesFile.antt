-- ===== src/Bypass/RulesFile.antt =====
-- internal/bypass/store.go: the text of a rules file, read by `ParseRulesFile` and written by
-- `persistLocked`.
pub mod RoundTrip
use outline_gate.Prelude.{
  ℕ, ◌+◌, Bool, true, false, ◌||◌, List, [], ◌∷◌, ◌++◌, if◌then◌else◌, ◌≡◌, arith, All,
}
use outline_gate.Prelude.Result.{Result, ok, err, ◌>>=◌}
use outline_gate.Go.Text.{
  Text, codes, is_empty, trim_space, has_prefix, split, text_eq, text_eq_iff,
}
use outline_gate.Go.Unicode.{Unicode}
use outline_gate.Bypass.Rule.{Rule, RuleError, parse_rule}
use outline_gate.Bypass.Matcher.{seen_before}

-- An error with the number of its line, counted from 1.
pub data FileError : Type 0 where
  at_line : ℕ → RuleError → FileError

-- What the loop of `ParseRulesFile` carries: the keys of `seen` and the rules so far.
pub record Scan : Type 0 where
  pub seen : List Text
  pub rules : List Rule

abbrev pub keep_rule : Rule → Scan → Scan
keep_rule r s =
    if seen_before s.seen r.raw
    then s
    else record { seen = r.raw ∷ s.seen; rules = s.rules ++ r ∷ [] }

-- The body of the loop, on line `i`, counted from 0.
unfoldable pub scan_line : Unicode → ℕ → Text → Scan → Result FileError Scan
scan_line u i raw_line s =
    let line = trim_space raw_line in
    if is_empty line || has_prefix line (codes "#")
    then ok s
    else elim (parse_rule u line) [ err e ↦ err (at_line (i + 1) e) | ok r ↦ ok (keep_rule r s) ]

unfoldable pub scan_lines : Unicode → ℕ → List Text → Scan → Result FileError Scan
scan_lines u i [] s = ok s
scan_lines u i (l ∷ ls) s = do t ← scan_line u i l s; scan_lines u (i + 1) ls t

abbrev pub empty_scan : Scan
empty_scan = record { seen = []; rules = [] }

-- `ParseRulesFile`.
unfoldable pub parse_rules_file : Unicode → Text → Result FileError (List Rule)
parse_rules_file u content = do s ← scan_lines u 0 (split b'\n' content) empty_scan; ok s.rules

abbrev pub newline : Text
newline = b'\n' ∷ []

unfoldable pub render_rules : List Rule → Text
render_rules [] = []
render_rules (r ∷ rs) = r.raw ++ (b'\n' ∷ render_rules rs)

abbrev pub file_header : Text
file_header = codes "# outline-gate user rules (managed by UI/API)"

-- The text that `persistLocked` builds.
unfoldable pub render_file : List Rule → Text
unfolding render_rules
render_file rs = file_header ++ (b'\n' ∷ render_rules rs)

-- No rule has this text.
abbrev pub NotRaw : Text → List Rule → Type 0
NotRaw t = All (λ r. text_eq r.raw t ≡ false)

-- No two rules have one text.
abbrev pub DistinctRaws : List Rule → Type 0
DistinctRaws [] = Unit {0}
DistinctRaws (r ∷ rs) = NotRaw r.raw rs × DistinctRaws rs

pub text_eq_sym : (a b : Text) → text_eq a b ≡ false → text_eq b a ≡ false
text_eq_sym a b h = ground (arith, text_eq_iff a b, text_eq_iff b a)
