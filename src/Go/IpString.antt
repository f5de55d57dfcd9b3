-- ===== src/Go/IpString.antt =====
-- Go's `IP.String` and `IPNet.String`, and `strconv.Itoa` for numbers that are not negative.
use outline_gate.Prelude.{
  ℕ, zero, suc, ◌+◌, ◌-◌, ◌*◌, ◌/◌, ◌%◌, true, false, not, ◌&&◌, ◌||◌, List, [], ◌∷◌, ◌++◌, Option,
  some, none, ltb, leb, ◌==◌, if◌then◌else◌, length, drop, take, all, map,
}
use outline_gate.Go.Text.{Text, codes, join}
use outline_gate.Go.Ip.{Bytes, IpAddr, IpNet, to4, is_nil, number_and_mask}

-- The digits of a number in a base of at most 16, in front of `acc`, as long as there is fuel.
unfoldable pub digits_onto : ℕ → ℕ → ℕ → Text → Text
digits_onto zero base n acc = acc
digits_onto (suc fuel) base n acc =
    let d : ℕ = n % base in
    let out : Text = (if ltb d 10 then b'0' + d else b'a' + (d - 10)) ∷ acc in
    let more = digits_onto fuel base (n / base) out in if ltb n base then out else more

-- `strconv.Itoa`; 20 digits hold every 64-bit number.
unfoldable pub itoa : ℕ → Text
unfolding digits_onto
itoa n = digits_onto 20 10 n []

-- A byte as two hexadecimal digits.
abbrev hex_byte : ℕ → Text
hex_byte b =
    let digit = λ (d : ℕ). if ltb d 10 then b'0' + d else b'a' + (d - 10) in
    digit (b / 16) ∷ digit (b % 16) ∷ []

-- `hexString`.
abbrev pub hex_bytes : Bytes → Text
hex_bytes [] = []
hex_bytes (b ∷ bs) = hex_byte b ++ hex_bytes bs

-- The 16-bit groups of an address.
words : Bytes → List ℕ
words (a ∷ b ∷ bs) = (a * 256 + b) ∷ words bs
words _ = []

zero_run : List ℕ → ℕ
zero_run [] = 0
zero_run (w ∷ ws) = if w == 0 then suc (zero_run ws) else 0

pub record Run : Type 0 where
  pub start : ℕ
  pub size : ℕ

-- The first longest run of at least two zero groups, behind the best one so far.
longest_run : ℕ → Run → List ℕ → Run
longest_run i best [] = best
longest_run i best (w ∷ ws) =
    let l = zero_run (w ∷ ws) in
    longest_run (i + 1)
      (if leb 2 l && ltb best.size l then record { start = i; size = l } else best) ws

abbrev hex_word : ℕ → Text
hex_word w = digits_onto 4 16 w []

-- `Addr.String` for an IPv6 address.
string6 : Bytes → Text
string6 b =
    let ws = words b in
    let r = longest_run 0 (record { start = 255; size = 0 }) ws in
    let colon : Text = b':' ∷ [] in
    if r.size == 0
    then join colon (map hex_word ws)
    else join colon (map hex_word (take r.start ws))
      ++ (b':' ∷ b':' ∷ join colon (map hex_word (drop (r.start + r.size) ws)))

-- `Addr.String` for an IPv4 address.
abbrev pub string4 : Bytes → Text
string4 b = join (b'.' ∷ []) (map itoa b)

-- `IP.String`.
unfoldable pub ip_string : IpAddr → Text
unfolding string6 words zero_run longest_run digits_onto join itoa to4
ip_string ip =
    if is_nil ip
    then codes "<nil>"
    else if not (is_nil (to4 ip))
    then string4 (to4 ip)
    else if length ip == 16
    then string6 ip
    else b'?' ∷ hex_bytes ip

-- The leading bits of one byte, if no bit behind them is set.
byte_ones : ℕ → ℕ → Option ℕ
byte_ones zero v = if v == 0 then some 0 else none
byte_ones (suc left) v = elim (leb 128 v) [
  | true ↦ elim (byte_ones left (v * 2 % 256)) [ none ↦ none | some n ↦ some (suc n) ]
  | false ↦ if v == 0 then some 0 else none
]

-- `simpleMaskLength`; `none` is -1.
simple_mask_length : Bytes → Option ℕ
simple_mask_length [] = some 0
simple_mask_length (v ∷ mask) = elim (v == 0xff) [
  | true ↦ elim (simple_mask_length mask) [ none ↦ none | some n ↦ some (8 + n) ]
  | false ↦ if all (λ b. b == 0) mask then byte_ones 8 v else none
]

-- `IPNet.String`.
unfoldable pub net_string : IpNet → Text
unfolding ip_string itoa simple_mask_length byte_ones
net_string n =
    let (nn, m) = number_and_mask n in
    if is_nil nn || is_nil m
    then codes "<nil>"
    else ip_string nn
      ++ (b'/' ∷ elim (simple_mask_length m) [
        | none ↦ if length m == 0 then codes "<nil>" else hex_bytes m
        | some l ↦ itoa l
      ])
