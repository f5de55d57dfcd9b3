-- ===== src/Go/Ip4Text.antt =====
-- Go's `IP.String` and `ParseIP` on IPv4 addresses: a printed address is read back.
use outline_gate.Prelude.{
  ℕ, zero, suc, ◌<◌, ◌≡◌, refl, ap, ◌∙◌, inl, inr, Bool, true, false, ◌&&◌, [], ◌∷◌, ◌++◌, Option,
  some, none, arith, ◌==◌, ==_iff, if◌then◌else◌, Bool-cases,
}
use outline_gate.Go.Text.{Text, contains, split, join, cons_head}
use outline_gate.Go.Ip.{Bytes, v4_prefix, to4}
use outline_gate.Go.IpParse.{
  octet, octet_from, octets, parse_ip4, parse_addr, parse_ip, first_mark, as16,
}
use outline_gate.Go.IpString.{itoa, ip_string}
use outline_gate.Go.HostPort.{is_decimal, all_decimal}

abbrev pub AllDecimal : Text → Type 0
AllDecimal [] = Unit {0}
AllDecimal (c ∷ s) = (is_decimal c ≡ true) × AllDecimal s

is_some_of : ℕ → Option ℕ → Bool
is_some_of n none = false
is_some_of n (some m) = m == n

-- What the digits of a byte should be: decimal, and read back as that byte.
reads_back : ℕ → Bool
reads_back n = is_some_of n (octet (itoa n)) && all_decimal (itoa n)

bytes_read_back : ℕ → Bool
bytes_read_back zero = true
bytes_read_back (suc n) = if reads_back n then bytes_read_back n else false

table : bytes_read_back 256 ≡ true
unfolding bytes_read_back reads_back is_some_of octet_from itoa
table = refl

find : (n : ℕ) → bytes_read_back n ≡ true → (x : ℕ) → x < n → reads_back x ≡ true
unfolding bytes_read_back
find zero h x l = absurd (omega arith)
find (suc n) h x l =
    let last : reads_back n ≡ true = ground arith in
    elim (Bool-cases (x == n)) [
      | inl same ↦ let e : x ≡ n = ground arith in rw e last
      | inr lower ↦ find n (ground arith) x (ground arith)
    ]

AllDecimal-all : (s : Text) → all_decimal s ≡ true → AllDecimal s
AllDecimal-all [] h = tt
AllDecimal-all (c ∷ s) h = (ground arith, AllDecimal-all s (ground arith))

some_of : (n : ℕ) (o : Option ℕ) → is_some_of n o ≡ true → o ≡ some n
unfolding is_some_of
some_of n none h = cc
some_of n (some m) h = ap some ((==_iff m n).0 h)

module _ (n : ℕ) (h : n < 256) where
  octet-itoa : octet (itoa n) ≡ some n
  unfolding reads_back
  octet-itoa =
      let f : (is_some_of n (octet (itoa n)) && all_decimal (itoa n)) ≡ true = find 256 table n h in
      some_of n (octet (itoa n)) (ground arith)

  pub itoa-AllDecimal : AllDecimal (itoa n)
  unfolding reads_back
  itoa-AllDecimal =
      let f : (is_some_of n (octet (itoa n)) && all_decimal (itoa n)) ≡ true = find 256 table n h in
      AllDecimal-all (itoa n) (ground arith)

split-field : (s rest : Text) → AllDecimal s → split b'.' (s ++ b'.' ∷ rest) ≡ s ∷ split b'.' rest
unfolding split
split-field [] rest h = refl
split-field (c ∷ s) rest h =
    let other : (c == b'.') ≡ false = ground arith in
    rw other (ap (cons_head c) (split-field s rest h.1))

split-last : (s : Text) → AllDecimal s → split b'.' s ≡ s ∷ []
unfolding split
split-last [] h = refl
split-last (c ∷ s) h =
    let other : (c == b'.') ≡ false = ground arith in rw other (ap (cons_head c) (split-last s h.1))

-- A character that is no digit and does not stand behind them.
pub contains-digits :
    (k : ℕ) (s rest : Text)
    → is_decimal k ≡ false
    → AllDecimal s
    → contains (s ++ rest) k ≡ contains rest k
contains-digits k [] rest n h = refl
contains-digits k (c ∷ s) rest n h = ground (arith, contains-digits k s rest n h.1)

first_mark-digits : (s rest : Text) → AllDecimal s → first_mark (s ++ b'.' ∷ rest) ≡ some b'.'
unfolding first_mark
first_mark-digits [] rest h = refl
first_mark-digits (c ∷ s) rest h = ground (arith, first_mark-digits s rest h.1)

pub contains-only : (k : ℕ) (s : Text) → is_decimal k ≡ false → AllDecimal s → contains s k ≡ false
contains-only k [] n h = refl
contains-only k (c ∷ s) n h = ground (arith, contains-only k s n h.1)

abbrev pub dotted : ℕ → ℕ → ℕ → ℕ → Text
dotted a b c d = itoa a ++ (b'.' ∷ (itoa b ++ (b'.' ∷ (itoa c ++ (b'.' ∷ itoa d)))))

parse_addr-four :
    (s : Text) (b : Bytes)
    → contains s b'%' ≡ false
    → first_mark s ≡ some b'.'
    → parse_ip4 s ≡ some b
    → parse_addr s ≡ some b
unfolding parse_addr
parse_addr-four s b p q r = rw (parse_addr, p, q) r

parse_ip-four :
    (s : Text) (b : Bytes)
    → contains s b'%' ≡ false
    → first_mark s ≡ some b'.'
    → parse_ip4 s ≡ some b
    → parse_ip s ≡ as16 b
unfolding parse_ip
parse_ip-four s b p q r = rw (parse_ip, parse_addr-four s b p q r) refl

module _ {a b c d : ℕ} (ha : a < 256) (hb : b < 256) (hc : c < 256) (hd : d < 256) where
  pub ip_string-dotted : ip_string (a ∷ b ∷ c ∷ d ∷ []) ≡ dotted a b c d
  unfolding ip_string to4 join
  ip_string-dotted = refl

  pub contains-dotted :
      (k : ℕ) → is_decimal k ≡ false → (b'.' == k) ≡ false → contains (dotted a b c d) k ≡ false
  contains-dotted k n m =
      rw
        (
          contains-digits k (itoa a) (b'.' ∷ (itoa b ++ (b'.' ∷ (itoa c ++ (b'.' ∷ itoa d))))) n
              (itoa-AllDecimal a ha),
          m,
          contains-digits k (itoa b) (b'.' ∷ (itoa c ++ (b'.' ∷ itoa d))) n (itoa-AllDecimal b hb),
          m,
          contains-digits k (itoa c) (b'.' ∷ itoa d) n (itoa-AllDecimal c hc),
          m,
          contains-only k (itoa d) n (itoa-AllDecimal d hd),
        )
        refl

  split-dotted : split b'.' (dotted a b c d) ≡ itoa a ∷ itoa b ∷ itoa c ∷ itoa d ∷ []
  split-dotted =
      rw
        (
          split-field (itoa a) (itoa b ++ (b'.' ∷ (itoa c ++ (b'.' ∷ itoa d))))
              (itoa-AllDecimal a ha),
          split-field (itoa b) (itoa c ++ (b'.' ∷ itoa d)) (itoa-AllDecimal b hb),
          split-field (itoa c) (itoa d) (itoa-AllDecimal c hc),
          split-last (itoa d) (itoa-AllDecimal d hd),
        )
        refl

  parse_ip4-dotted : parse_ip4 (dotted a b c d) ≡ some (a ∷ b ∷ c ∷ d ∷ [])
  unfolding parse_ip4
  parse_ip4-dotted =
      ap octets split-dotted
      ∙ rw (octet-itoa a ha, octet-itoa b hb, octet-itoa c hc, octet-itoa d hd) refl

  pub parse_ip-dotted : parse_ip (dotted a b c d) ≡ v4_prefix ++ (a ∷ b ∷ c ∷ d ∷ [])
  parse_ip-dotted =
      parse_ip-four (dotted a b c d) _ (contains-dotted b'%' refl refl)
        (first_mark-digits (itoa a) (itoa b ++ (b'.' ∷ (itoa c ++ (b'.' ∷ itoa d))))
          (itoa-AllDecimal a ha))
        parse_ip4-dotted
