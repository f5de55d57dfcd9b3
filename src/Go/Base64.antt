-- ===== src/Go/Base64.antt =====
-- Go's package base64: `StdEncoding` and `RawStdEncoding`. Line breaks are skipped, and the bits that a
-- last group leaves over are not looked at.
use outline_gate.Prelude.{
  ℕ, ◌+◌, ◌-◌, ◌*◌, ◌/◌, ◌%◌, ◌&&◌, ◌||◌, [], ◌∷◌, Option, some, none, leb, ◌==◌, if◌then◌else◌,
}
use outline_gate.Go.Text.{Text}
use outline_gate.Go.Ip.{Bytes}

-- The value of a character of the alphabet.
unfoldable pub sextet : ℕ → Option ℕ
sextet c =
    if leb b'A' c && leb c b'Z'
    then some (c - b'A')
    else if leb b'a' c && leb c b'z'
    then some (c - b'a' + 26)
    else if leb b'0' c && leb c b'9'
    then some (c - b'0' + 52)
    else if c == b'+'
    then some 62
    else if c == b'/'
    then some 63
    else none

abbrev pub byte1 : ℕ → ℕ → ℕ
byte1 a b = a * 4 + b / 16

abbrev pub byte2 : ℕ → ℕ → ℕ
byte2 b c = b % 16 * 16 + c / 4

abbrev pub byte3 : ℕ → ℕ → ℕ
byte3 c d = c % 4 * 64 + d

infixl 5 ◌>>=◌
abbrev ◌>>=◌ {ℓ κ} : {A : Type ℓ} {B : Type κ} → Option A → (A → Option B) → Option B
none >>= f = none
some a >>= f = f a

-- A last group of two or three characters.
abbrev pub two : ℕ → ℕ → Option Bytes
two a b = do x ← sextet a; y ← sextet b; some (byte1 x y ∷ [])

abbrev pub three : ℕ → ℕ → ℕ → Option Bytes
three a b c = do x ← sextet a; y ← sextet b; z ← sextet c; some (byte1 x y ∷ byte2 y z ∷ [])

abbrev pub four : ℕ → ℕ → ℕ → ℕ → Option Bytes → Option Bytes
four a b c d more = do
  x ← sextet a
  y ← sextet b
  z ← sextet c
  w ← sextet d
  rest ← more
  some (byte1 x y ∷ byte2 y z ∷ byte3 z w ∷ rest)

abbrev if_last : Text → Option Bytes → Option Bytes
if_last [] o = o
if_last (c ∷ s) o = none

-- Groups of four characters, the last of which may be padded.
unfoldable pub decode_padded : Text → Option Bytes
decode_padded [] = some []
decode_padded (a ∷ b ∷ c ∷ d ∷ s) =
    let more = decode_padded s in
    if d == b'='
    then (if c == b'=' then if_last s (two a b) else if_last s (three a b c))
    else four a b c d more
decode_padded _ = none

unfoldable pub decode_raw : Text → Option Bytes
decode_raw [] = some []
decode_raw (a ∷ []) = none
decode_raw (a ∷ b ∷ []) = two a b
decode_raw (a ∷ b ∷ c ∷ []) = three a b c
decode_raw (a ∷ b ∷ c ∷ d ∷ s) = four a b c d (decode_raw s)

abbrev without_breaks : Text → Text
without_breaks [] = []
without_breaks (c ∷ s) = if c == b'\n' || c == b'\r' then without_breaks s else c ∷ without_breaks s

-- `StdEncoding.DecodeString` and `RawStdEncoding.DecodeString`.
unfoldable pub std_decode : Text → Option Bytes
std_decode s = decode_padded (without_breaks s)

unfoldable pub raw_std_decode : Text → Option Bytes
raw_std_decode s = decode_raw (without_breaks s)
