-- ===== src/Go/HostPort.antt =====
-- Go's `net.JoinHostPort`, `net.SplitHostPort`, `strings.Cut` and `strconv.Atoi`. An error of these is
-- `none`: no caller looks at which one it is.
use outline_gate.Prelude.{
  ℕ, zero, suc, ◌+◌, ◌-◌, ◌*◌, ◌^◌, Bool, true, not, ◌&&◌, ◌||◌, [], ◌∷◌, ◌++◌, Option, some, none,
  ltb, leb, ◌==◌, if◌then◌else◌, ℤ, pos, negsuc,
}
use outline_gate.Go.Text.{Text, is_empty, contains}

abbrev pub cut_cons : ℕ → Option (Text × Text) → Option (Text × Text)
cut_cons c none = none
cut_cons c (some (a, b)) = some (c ∷ a, b)

-- `strings.Cut s sep`, for a separator of one character; `none` if it does not occur.
unfoldable pub cut : ℕ → Text → Option (Text × Text)
cut sep [] = none
cut sep (c ∷ s) = let rest = cut sep s in if c == sep then some ([], s) else cut_cons c rest

unfoldable pub join_host_port : Text → Text → Text
join_host_port host port =
    if contains host b':' then b'[' ∷ (host ++ (b']' ∷ b':' ∷ port)) else host ++ (b':' ∷ port)

-- No bracket in any of the two, and no colon in the port.
abbrev pub checked : Text → Text → Option (Text × Text)
checked host port =
    if contains port b':' || contains host b'[' || contains port b'[' || contains port b']'
    then none
    else some (host, port)

-- Behind a bracket: the port stands behind the colon that follows it.
abbrev pub bracketed : Text × Text → Option (Text × Text)
bracketed (host, c ∷ port) = if c == b':' then checked host port else none
bracketed (host, []) = none

abbrev pub plain : Text × Text → Option (Text × Text)
plain (host, port) = if contains host b']' then none else checked host port

abbrev pub split_with :
    (Text × Text → Option (Text × Text)) → Option (Text × Text) → Option (Text × Text)
split_with f none = none
split_with f (some w) = f w

unfoldable pub split_host_port : Text → Option (Text × Text)
split_host_port [] = none
split_host_port (c ∷ s) =
    if c == b'[' then split_with bracketed (cut b']' s) else split_with plain (cut b':' (c ∷ s))

abbrev pub is_decimal : ℕ → Bool
is_decimal c = leb b'0' c && leb c b'9'

abbrev pub all_decimal : Text → Bool
all_decimal [] = true
all_decimal (c ∷ s) = is_decimal c && all_decimal s

-- The value of decimal digits behind a number.
unfoldable pub decimal : ℕ → Text → ℕ
decimal n [] = n
decimal n (c ∷ s) = decimal (n * 10 + (c - b'0')) s

abbrev magnitude : Text → Option ℕ
magnitude s = if is_empty s || not (all_decimal s) then none else some (decimal 0 s)

abbrev negate : ℕ → ℤ
negate zero = pos 0
negate (suc n) = negsuc n

abbrev below : ℕ → (ℕ → ℤ) → Option ℕ → Option ℤ
below bound sign none = none
below bound sign (some n) = if ltb n bound then some (sign n) else none

-- `strconv.Atoi` on 64 bits.
unfoldable pub atoi : Text → Option ℤ
unfolding decimal
atoi [] = none
atoi (c ∷ s) =
    if c == b'-'
    then below (2 ^ 63 + 1) negate (magnitude s)
    else if c == b'+'
    then below (2 ^ 63) pos (magnitude s)
    else below (2 ^ 63) pos (magnitude (c ∷ s))
