-- ===== src/Amnezia/Client/Socket.antt =====
-- internal/amnezia/client.go: the text protocol on the daemon's socket, and what `handshakeOK` reads of it.
use outline_gate.Prelude.{
  ℕ, zero, suc, ◌+◌, ◌-◌, ◌*◌, ◌^◌, Bool, true, false, not, ◌&&◌, List, [], ◌∷◌, ◌++◌, Option, some,
  none, ltb, leb, ◌==◌, if◌then◌else◌, ℤ, pos, negsuc,
}
use outline_gate.Prelude.Result.{Result, ok, err}
use outline_gate.Go.Text.{Text, codes, text_eq, trim_space, has_prefix, split}
use outline_gate.Go.HostPort.{cut, is_decimal}
use outline_gate.Amnezia.Client.{Reply, Host, State, act, send}

-- The loop of `uapiCmd`: the first line that starts with "errno=" decides.
unfoldable pub answered : List Text → Option Text → Option Text
answered [] none = some (codes "EOF")
answered [] (some e) = some e
answered (l ∷ ls) ending =
    let line = trim_space l in
    let rest = answered ls ending in
    if has_prefix line (codes "errno=")
    then (if text_eq line (codes "errno=0") then none else some (codes "uapi " ++ line))
    else rest

abbrev reply_error : Reply → Option Text → Option Text
reply_error r (some e) = some e
reply_error r none = answered r.lines r.ending

-- `uapiCmd`.
unfoldable pub uapi_cmd : Host → Text → State → State × Option Text
uapi_cmd h payload st =
    let r = h.reply st.1.now payload in (act h (send payload) st, reply_error r r.refused)

-- The loop of `uapiGet`.
unfoldable pub gathered : List Text → Option Text → Result Text Text
gathered [] none = ok []
gathered [] (some e) = err e
gathered (l ∷ ls) ending =
    let rest = gathered ls ending in
    if text_eq (trim_space l) (codes "errno=0")
    then ok []
    else elim rest [ ok t ↦ ok (l ++ (b'\n' ∷ t)) | err e ↦ err e ]

abbrev reply_text : Reply → Option Text → Result Text Text
reply_text r (some e) = err e
reply_text r none = gathered r.lines r.ending

-- `uapiGet`, at a time.
abbrev pub get_request : Text
get_request = codes "get=1\n\n"

unfoldable pub uapi_get : Host → ℕ → Result Text Text
uapi_get h now = let r = h.reply now get_request in reply_text r r.refused

-- `strconv.ParseUint` on 64 bits: digits left to right, and the greatest number once these exceed it.
unfoldable pub uint_from : ℕ → Text → Option ℕ
uint_from n [] = some n
uint_from n (c ∷ s) =
    let next = n * 10 + (c - b'0') in
    let rest = uint_from next s in
    if not (is_decimal c) then none else if leb (2 ^ 64) next then some (2 ^ 64 - 1) else rest

abbrev signed : Bool → Option ℕ → ℤ
signed minus none = pos 0
signed false (some n) = pos (if leb (2 ^ 63) n then 2 ^ 63 - 1 else n)
signed true (some zero) = pos 0
signed true (some (suc n)) = negsuc (if leb (2 ^ 63) n then 2 ^ 63 - 1 else n)

abbrev number_of : Text → Option ℕ
number_of [] = none
number_of (c ∷ s) = uint_from 0 (c ∷ s)

-- The value of `strconv.ParseInt`, on 64 bits to the base 10, whose error is ignored.
unfoldable pub parse_int : Text → ℤ
unfolding uint_from
parse_int [] = pos 0
parse_int (c ∷ s) =
    if c == b'-'
    then signed true (number_of s)
    else if c == b'+'
    then signed false (number_of s)
    else signed false (number_of (c ∷ s))

-- The loop of `handshakeOK` over the lines, with the values of `hs` and `rx` so far.
abbrev note_entry : Option (Text × Text) → ℤ × ℤ → ℤ × ℤ
note_entry none w = w
note_entry (some (k, v)) (hs, rx) =
    if text_eq k (codes "last_handshake_time_sec")
    then (parse_int (trim_space v), rx)
    else if text_eq k (codes "rx_bytes")
    then (hs, parse_int (trim_space v))
    else (hs, rx)

unfoldable pub read_entries : List Text → ℤ × ℤ → ℤ × ℤ
read_entries [] w = w
read_entries (l ∷ ls) w = read_entries ls (note_entry (cut b'=' l) w)

abbrev is_positive : ℤ → Bool
is_positive (pos n) = ltb 0 n
is_positive (negsuc n) = false

abbrev alive : Result Text Text → Bool
alive (err e) = false
alive (ok out) =
    let w = read_entries (split b'\n' out) (pos 0, pos 0) in is_positive w.0 && is_positive w.1

-- `handshakeOK`.
unfoldable pub handshake_ok : Host → ℕ → Bool
unfolding uapi_get read_entries
handshake_ok h now = alive (uapi_get h now)
