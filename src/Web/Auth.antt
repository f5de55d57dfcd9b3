-- ===== src/Web/Auth.antt =====
-- internal/webui/auth.go: who may call the API. The token of a request is compared as bytes.
use outline_gate.Prelude.{
  ℕ, ◌+◌, ◌/◌, ◌%◌, Bool, false, not, ◌&&◌, ◌||◌, [], ◌∷◌, ◌++◌, Option, some, none, ltb,
  if◌then◌else◌, length, drop,
}
use outline_gate.Go.Text.{Text, codes, text_eq, is_empty, has_prefix, trim_space}
use outline_gate.Go.Ip.{Bytes}
use outline_gate.Go.HostPort.{cut}
use outline_gate.Go.Base64.{std_decode}
use outline_gate.Web.{Request, Response, Handler, write_json, unauthorized_body}

-- The bytes of a string.
abbrev rune_bytes : ℕ → Bytes
rune_bytes c =
    if ltb c 0x80
    then c ∷ []
    else if ltb c 0x800
    then (0xc0 + c / 64) ∷ (0x80 + c % 64) ∷ []
    else if ltb c 0x10000
    then (0xe0 + c / 4096) ∷ (0x80 + c / 64 % 64) ∷ (0x80 + c % 64) ∷ []
    else (0xf0 + c / 262144) ∷ (0x80 + c / 4096 % 64) ∷ (0x80 + c / 64 % 64) ∷ (0x80 + c % 64) ∷ []

unfoldable pub bytes_of : Text → Bytes
bytes_of [] = []
bytes_of (c ∷ s) = rune_bytes c ++ bytes_of s

-- The password of "user:password".
abbrev password_is : Bytes → Option (Bytes × Bytes) → Bool
password_is want none = false
password_is want (some (user, password)) = text_eq password want

abbrev basic_is : Bytes → Option Bytes → Bool
basic_is want none = false
basic_is want (some raw) = password_is want (cut b':' raw)

abbrev query_is : Text → Bool → Text → Bool
query_is want allow q = if allow && not (is_empty q) then text_eq q want else false

-- `checkToken`.
unfoldable pub check_token : Request → Text → Bool → Bool
check_token r want allow_query =
    let auth = r.authorization in
    let bearer = codes "Bearer " in
    let basic = codes "Basic " in
    if has_prefix auth bearer
    then text_eq (trim_space (drop (length bearer) auth)) want
    else if has_prefix auth basic
    then basic_is (bytes_of want) (std_decode (trim_space (drop (length basic) auth)))
    else query_is want allow_query (r.query (codes "token"))

-- `tokenAuthOpts`.
abbrev pub unauthorized : Response
unauthorized = write_json 401 unauthorized_body

abbrev pub has_access : Text → Bool → Request → Bool
has_access token allow_query r = not (is_empty token || not (check_token r token allow_query))

unfoldable pub token_auth : {S : Type 0} → Text → Bool → Handler S → Handler S
token_auth token allow_query next r s =
    if has_access token allow_query r then next r s else (s, unauthorized)
