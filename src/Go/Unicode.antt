-- ===== src/Go/Unicode.antt =====
-- Go's package unicode: its tables are a parameter of the model, with what the program relies on.
use outline_gate.Prelude.{
  ℕ, ◌+◌, ◌≤◌, ◌<◌, ◌≡◌, ◌⊎◌, refl, Bool, true, false, ◌&&◌, ◌||◌, map, leb, arith, if◌then◌else◌,
}
use outline_gate.Go.Text.{Text, is_space}

abbrev pub is_upper_ascii : ℕ → Bool
is_upper_ascii c = leb 65 c && leb c 90

abbrev pub is_lower_ascii : ℕ → Bool
is_lower_ascii c = leb 97 c && leb c 122

abbrev pub is_digit_ascii : ℕ → Bool
is_digit_ascii c = leb 48 c && leb c 57

-- `unicode.IsLetter`, `IsDigit` and `ToLower`. They are known on ASCII; beyond it, lower case stays
-- beyond it or is an ASCII letter (U+212A), keeps blanks apart, and is idempotent.
pub record Unicode : Type 0 where
  pub is_letter : ℕ → Bool
  pub is_digit : ℕ → Bool
  pub to_lower : ℕ → ℕ
  pub is_letter_ascii : (c : ℕ) → c < 128 → is_letter c ≡ (is_upper_ascii c || is_lower_ascii c)
  pub is_digit_ascii_eq : (c : ℕ) → c < 128 → is_digit c ≡ is_digit_ascii c
  pub to_lower_ascii : (c : ℕ) → c < 128 → to_lower c ≡ (if is_upper_ascii c then c + 32 else c)
  pub to_lower_wide :
      (c : ℕ) → 128 ≤ c → (128 ≤ to_lower c) ⊎ ((97 ≤ to_lower c) × (to_lower c ≤ 122))
  pub to_lower_idem : (c : ℕ) → to_lower (to_lower c) ≡ to_lower c
  pub is_space-to_lower : (c : ℕ) → is_space (to_lower c) ≡ is_space c
  pub letter_not_space : (c : ℕ) → is_letter c ≡ true → is_space c ≡ false
  pub digit_not_space : (c : ℕ) → is_digit c ≡ true → is_space c ≡ false

-- `strings.ToLower`.
abbrev pub lower : Unicode → Text → Text
lower u s = map u.to_lower s

-- The tables cut off at ASCII: letters beyond it are no letters and have no case.
abbrev ascii_letter : ℕ → Bool
ascii_letter c = is_upper_ascii c || is_lower_ascii c

abbrev ascii_lower : ℕ → ℕ
ascii_lower c = if is_upper_ascii c then c + 32 else c

pub ascii_lower_wide :
    (c : ℕ) → 128 ≤ c → (128 ≤ ascii_lower c) ⊎ ((97 ≤ ascii_lower c) × (ascii_lower c ≤ 122))
ascii_lower_wide c h = ground arith

pub ascii_lower_idem : (c : ℕ) → ascii_lower (ascii_lower c) ≡ ascii_lower c
ascii_lower_idem c = ground arith

pub ascii_lower_space : (c : ℕ) → is_space (ascii_lower c) ≡ is_space c
ascii_lower_space c = ground arith

pub ascii_letter_space : (c : ℕ) → ascii_letter c ≡ true → is_space c ≡ false
ascii_letter_space c h = ground arith

pub ascii_digit_space : (c : ℕ) → is_digit_ascii c ≡ true → is_space c ≡ false
ascii_digit_space c h = ground arith

abbrev pub ascii : Unicode
ascii = record {
  is_letter = ascii_letter;
  is_digit = is_digit_ascii;
  to_lower = ascii_lower;
  is_letter_ascii = λ c h. refl;
  is_digit_ascii_eq = λ c h. refl;
  to_lower_ascii = λ c h. refl;
  to_lower_wide = ascii_lower_wide;
  to_lower_idem = ascii_lower_idem;
  is_space-to_lower = ascii_lower_space;
  letter_not_space = ascii_letter_space;
  digit_not_space = ascii_digit_space;
}
