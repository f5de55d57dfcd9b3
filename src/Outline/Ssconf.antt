-- ===== src/Outline/Ssconf.antt =====
-- internal/outline/ssconf.go: a key that names a document on a server is expanded to the key in the document.
-- The HTTP client, `net/url` and `encoding/json` are not part of the repository: they are the parameter
-- `Web`.
pub mod Static
use outline_gate.Prelude.{
  ℕ, ◌*◌, ◌+◌, ◌/◌, ◌%◌, Bool, true, false, ◌||◌, List, [], ◌∷◌, ◌++◌, Option, some, none, ltb,
  ◌==◌, if◌then◌else◌, ℤ, pos_part, ◌-◌,
}
use outline_gate.Prelude.Result.{Result, ok, err}
use outline_gate.Go.Text.{
  Text, codes, text_eq, is_empty, trim_space, has_prefix, contains, split, join,
}
use outline_gate.Outline.{is_dynamic_key}
use outline_gate.Go.Ip.{Bytes}
use outline_gate.Go.IpString.{itoa}
use outline_gate.Go.HostPort.{join_host_port}

-- `outlineJSON`.
pub record OutlineJson : Type 0 where
  pub server : Text
  pub server_port : ℤ
  pub password : Text
  pub method : Text
  pub prefix : Text

-- The messages of a provider's error object.
pub record Complaint : Type 0 where
  pub error_message : Text
  pub message : Text

pub data SsconfError : Type 0 where
  empty_key bad_url bad_fetch bad_read empty_body bad_json missing_fields : SsconfError
  bad_scheme provider : Text → SsconfError
  bad_status : ℕ → SsconfError

-- A URL: its scheme, and its text as one of https without a fragment.
pub record ParsedUrl : Type 0 where
  pub scheme : Text
  pub https_text : Text

-- The answer to a GET: the status, and the body, of which at most 2 ^ 20 bytes are read, if the read works.
pub record Fetched : Type 0 where
  pub status : ℕ
  pub body : Option Text

pub record Web : Type 0 where
  pub parse_url : Text → Option ParsedUrl
  pub fetch : Text → Option Fetched
  pub as_outline : Text → Option OutlineJson
  pub as_complaint : Text → Option Complaint
  pub query_escape : Text → Text

-- `base64.URLEncoding` without padding.
abbrev url_char : ℕ → ℕ
url_char n =
    if ltb n 26
    then b'A' + n
    else if ltb n 52
    then b'a' + (n - 26)
    else if ltb n 62
    then b'0' + (n - 52)
    else if n == 62
    then b'-'
    else b'_'

unfoldable pub url_encode : Bytes → Text
url_encode [] = []
url_encode (a ∷ []) = url_char (a / 4) ∷ url_char (a % 4 * 16) ∷ []
url_encode (a ∷ b ∷ []) =
    url_char (a / 4) ∷ url_char (a % 4 * 16 + b / 16) ∷ url_char (b % 16 * 4) ∷ []
url_encode (a ∷ b ∷ c ∷ rest) =
    url_char (a / 4)
    ∷ url_char (a % 4 * 16 + b / 16)
    ∷ url_char (b % 16 * 4 + c / 64)
    ∷ url_char (c % 64)
    ∷ url_encode rest

-- The key that the document describes; `bytes` gives the bytes of a string.
unfoldable pub build_key : Web → (Text → Bytes) → OutlineJson → Text
unfolding url_encode
build_key w bytes j =
    let user = url_encode (bytes (j.method ++ (b':' ∷ j.password))) in
    let key =
      codes "ss://" ++ (user ++ (b'@' ∷ join_host_port j.server (itoa (pos_part j.server_port)))) in
    if is_empty j.prefix then key else key ++ (codes "?prefix=" ++ w.query_escape j.prefix)

abbrev first_message : Complaint → Text
first_message c =
    if is_empty (trim_space c.error_message)
    then trim_space c.message
    else trim_space c.error_message

abbrev complain : Option Complaint → SsconfError
complain none = missing_fields
complain (some c) =
    if is_empty (first_message c) then missing_fields else provider (first_message c)

abbrev has_gap : OutlineJson → Bool
has_gap j =
    is_empty j.server || pos_part j.server_port == 0 || is_empty j.method || is_empty j.password

abbrev from_json : Web → (Text → Bytes) → Text → Option OutlineJson → Result SsconfError Text
from_json w bytes body none = err bad_json
from_json w bytes body (some j) =
    if has_gap j then err (complain (w.as_complaint body)) else ok (build_key w bytes j)

-- `parseDynamicBody`.
unfoldable pub parse_dynamic_body : Web → (Text → Bytes) → Text → Result SsconfError Text
unfolding build_key
parse_dynamic_body w bytes body =
    if is_empty body
    then err empty_body
    else if has_prefix body (codes "ss://")
    then ok (trim_space body)
    else from_json w bytes body (w.as_outline body)

-- `expandDynamic`. The body is read before the status is looked at.
abbrev from_body : Web → (Text → Bytes) → ℕ → Option Text → Result SsconfError Text
from_body w bytes status none = err bad_read
from_body w bytes status (some body) =
    if status == 200 then parse_dynamic_body w bytes (trim_space body) else err (bad_status status)

abbrev from_fetch : Web → (Text → Bytes) → Option Fetched → Result SsconfError Text
from_fetch w bytes none = err bad_fetch
from_fetch w bytes (some f) = from_body w bytes f.status f.body

abbrev from_url : Web → (Text → Bytes) → Option ParsedUrl → Result SsconfError Text
from_url w bytes none = err bad_url
from_url w bytes (some u) =
    if text_eq u.scheme (codes "ssconf")
    then from_fetch w bytes (w.fetch u.https_text)
    else err (bad_scheme u.scheme)

unfoldable pub expand_dynamic : Web → (Text → Bytes) → Text → Result SsconfError Text
unfolding parse_dynamic_body
expand_dynamic w bytes key = from_url w bytes (w.parse_url (trim_space key))

-- The loop over the parts of a key with pipes: a part that is not expanded stays as it is.
abbrev pub cons_part : Text → Result SsconfError (List Text) → Result SsconfError (List Text)
cons_part p (ok ps) = ok (p ∷ ps)
cons_part p (err e) = err e

abbrev put_part :
    Result SsconfError Text → Result SsconfError (List Text) → Result SsconfError (List Text)
put_part (err e) rest = err e
put_part (ok p) rest = cons_part p rest

unfoldable pub expand_parts : Web → (Text → Bytes) → List Text → Result SsconfError (List Text)
expand_parts w bytes [] = ok []
expand_parts w bytes (p ∷ ps) =
    let rest = expand_parts w bytes ps in
    if is_dynamic_key (trim_space p)
    then put_part (expand_dynamic w bytes (trim_space p)) rest
    else cons_part p rest

abbrev pub pipe : Text
pipe = b'|' ∷ []

abbrev pub joined : Result SsconfError (List Text) → Result SsconfError Text
joined (err e) = err e
joined (ok ps) = ok (join pipe ps)

-- `ExpandAccessKey`.
unfoldable pub expand_access_key : Web → (Text → Bytes) → Text → Result SsconfError Text
unfolding expand_parts expand_dynamic
expand_access_key w bytes text =
    let key = trim_space text in
    if is_empty key
    then err empty_key
    else if contains key b'|'
    then joined (expand_parts w bytes (split b'|' key))
    else if is_dynamic_key key
    then expand_dynamic w bytes key
    else ok key
