-- ===== src/Web.antt =====
-- internal/webui: the web interface. What the handlers call is an interface of the source, a record of
-- operations on a state of any type (`Server`). Package net/http is not part of the repository: a request is
-- its parts as the handlers read them, and a response its status, its header `Allow` and what is written.
-- A JSON text is not built: `Payload` has a constructor for each object that the handlers encode.
pub mod Auth
pub mod Rules
pub mod Handlers
pub mod Connections
pub mod Index
pub mod Mount
use outline_gate.Prelude.{ℕ, Bool, List, [], ◌∷◌, Option, some, none, ℤ}
use outline_gate.Prelude.Result.{Result}
use outline_gate.Go.Text.{Text, codes}
use outline_gate.Go.Ip.{IpNet}
use outline_gate.Bypass.Rule.{Rule}
use outline_gate.Connlog.Types.{Event}
use outline_gate.Connlog.Methods.{Counts}

-- What `json.Decode` makes of the body for a struct with one field: the value that it leaves there, and its
-- error.
pub record Decoded (A : Type 0) : Type 0 where
  pub value : A
  pub error : Option Text

-- `*http.Request`; a parameter that is missing is the empty text. `now` is the time of the request.
pub record Request : Type 0 where
  pub method : Text
  pub path : Text
  pub authorization : Text
  pub query : Text → Text
  pub body_rule : Decoded Text
  pub body_rules : Decoded (List Text)
  pub body_key : Decoded Text
  pub body_backend : Decoded Text
  pub body_scope : Decoded Text
  pub now : ℕ
  -- Whether the writer of the response can flush.
  pub can_flush : Bool

pub record OutlineStatus : Type 0 where
  pub access_key_redacted : Text
  pub ready : Bool
  pub server_ip : Text
  pub persist_file : Text

pub record AmneziaStatus : Type 0 where
  pub configured : Bool
  pub ready : Bool
  pub endpoint : Text
  pub iface : Text
  pub label : Text

pub record TunnelStatus : Type 0 where
  pub backend : Text
  pub ready : Bool
  pub outline : OutlineStatus
  pub amnezia : AmneziaStatus
  pub message : Text

pub record RuntimeStatus : Type 0 where
  pub version : Text
  pub socks_listen : Text
  pub gateway_enable : Bool
  pub health_listen : Text

-- The answer of `handleStatus`; an entry that is left out is `none`.
pub record StatusBody : Type 0 where
  pub version : Option Text
  pub outline : Option OutlineStatus
  pub tunnel : Option TunnelStatus
  pub runtime : Option RuntimeStatus
  pub conn_log : Option (ℕ × ℕ × Counts)

pub data Payload : Type 0 where
  nothing deleted_body unauthorized_body not_found_body : Payload
  error_body version_body applied_body page_body plain_body asset_body redirect_body :
      Text → Payload
  rules_body : List (Text × Text) → Payload
  rule_body : Text → Text → Payload
  count_body : ℕ → Payload
  nets_body : List Text → List Text → Text → Payload
  outline_body : OutlineStatus → Payload
  replaced_body : Option Text → OutlineStatus → Payload
  tunnel_body switched_body : TunnelStatus → Payload
  restart_body : Text → Text → Payload
  stream_body : List Event → Payload
  events_body : List Event → ℕ → ℕ → Counts → Payload
  status_body : StatusBody → Payload

pub record Response : Type 0 where
  pub status : ℕ
  pub allow : Text
  pub payload : Payload

-- The interfaces of the source.
pub record RulesApi (S : Type 0) : Type 0 where
  pub rules : S → List Rule
  pub add_rule : Text → S → S × Result Text Rule
  pub remove_rule : Text → S → S × Result Text Bool
  pub set_rules : List Text → S → S × Option Text
  pub effective : S → List IpNet
  pub resolved : S → List IpNet
  pub last_error : S → Text
  pub refresh : S → S × Option Text

pub record OutlineApi (S : Type 0) : Type 0 where
  pub status : S → OutlineStatus
  pub replace : Text → S → S × (OutlineStatus × Option Text)

pub record TunnelApi (S : Type 0) : Type 0 where
  pub status : S → TunnelStatus
  pub set_backend : Text → S → S × (TunnelStatus × Option Text)

-- A read of the log drops old events first, so it changes the state.
pub record LogApi (S : Type 0) : Type 0 where
  pub snapshot : ℤ → S → S × List Event
  pub stats : ℕ → S → S × Counts
  pub capacity : S → ℕ
  pub len : S → S × ℕ

-- `Server`; `index` is the page of the static files, and `asset` the answer of their server.
pub record Server (S : Type 0) : Type 0 where
  pub manager : Option (RulesApi S)
  pub block : Option (RulesApi S)
  pub outline : Option (OutlineApi S)
  pub tunnel : Option (TunnelApi S)
  pub conn_log : Option (LogApi S)
  pub status : Option (S → RuntimeStatus)
  pub version : Text
  pub token : Text
  pub index : Option (Option Text)
  pub asset : Request → Response
  pub restart_services : Option (S → S × Result Text Text)
  pub restart_container : Option (S → S)

abbrev pub Handler : Type 0 → Type 0
Handler S = Request → S → S × Response

-- `writeJSON` and `writeErr`.
abbrev pub write_json : ℕ → Payload → Response
write_json code body = record { status = code; allow = []; payload = body }

abbrev pub write_err : ℕ → Text → Response
write_err code msg = write_json code (error_body msg)

abbrev pub not_allowed : Text → Response
not_allowed methods = record (write_err 405 (codes "method not allowed")) { allow = methods }

-- The refusal of a body that is no JSON for the struct, in front of what is done with one that is.
abbrev pub if_decoded : {S : Type 0} → Option Text → S → S × Response → S × Response
if_decoded (some e) s o = (s, write_err 400 (codes "invalid JSON"))
if_decoded none s o = o

-- `http.NotFound`.
abbrev pub not_found : Response
not_found = write_json 404 not_found_body

abbrev pub get_method : Text
get_method = codes "GET"

abbrev pub post_method : Text
post_method = codes "POST"

abbrev pub put_method : Text
put_method = codes "PUT"

abbrev pub delete_method : Text
delete_method = codes "DELETE"

-- `errString`.
abbrev pub err_string : Option Text → Text
err_string none = []
err_string (some e) = e
