-- ===== src/Go/Quote.antt =====
-- Go's verb `%q` (`strconv.Quote`) on valid text. Which characters beyond ASCII are printed as they are
-- is the argument `print`.
use outline_gate.Prelude.{
  ℕ, suc, zero, ◌+◌, ◌-◌, ◌/◌, ◌%◌, Bool, ◌||◌, [], ◌∷◌, ◌++◌, ltb, ◌==◌, if◌then◌else◌,
}
use outline_gate.Go.Text.{Text, codes}

-- The last `n` hexadecimal digits of a number, in front of a text.
abbrev pub hex_onto : ℕ → ℕ → Text → Text
hex_onto zero c out = out
hex_onto (suc n) c out =
    let d : ℕ = c % 16 in
    hex_onto n (c / 16) ((if ltb d 10 then b'0' + d else b'a' + (d - 10)) ∷ out)

abbrev escaped : ℕ → Text
escaped c = b'\\' ∷ c ∷ []

abbrev quoted_control : ℕ → Text
quoted_control c =
    if c == 7
    then escaped b'a'
    else if c == 8
    then escaped b'b'
    else if c == 12
    then escaped b'f'
    else if c == 10
    then escaped b'n'
    else if c == 13
    then escaped b'r'
    else if c == 9
    then escaped b't'
    else if c == 11
    then escaped b'v'
    else codes "\\x" ++ hex_onto 2 c []

unfoldable pub quoted_char : (ℕ → Bool) → ℕ → Text
quoted_char print c =
    if c == b'"' || c == b'\\'
    then escaped c
    else if ltb c 32 || c == 127
    then quoted_control c
    else if ltb c 127 || print c
    then c ∷ []
    else if ltb c 65536
    then codes "\\u" ++ hex_onto 4 c []
    else codes "\\U" ++ hex_onto 8 c []

abbrev quoted_chars : (ℕ → Bool) → Text → Text
quoted_chars print [] = b'"' ∷ []
quoted_chars print (c ∷ s) = quoted_char print c ++ quoted_chars print s

unfoldable pub quote : (ℕ → Bool) → Text → Text
quote print s = b'"' ∷ quoted_chars print s
