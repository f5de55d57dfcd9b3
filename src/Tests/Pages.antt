-- ===== src/Tests/Pages.antt =====
-- internal/webui, internal/config/config.go, internal/outline/ssconf.go: a server with a counter for a state,
-- and keys.
use outline_gate.Prelude.{
  ℕ, suc, ◌≡◌, ◌⊎◌, refl, true, false, List, [], ◌∷◌, ◌++◌, Option, some, none, arith, pos,
}
use outline_gate.Prelude.Result.{ok}
use outline_gate.Go.Text.{Text, codes, trim_space, text_eq, trim_suffix, split, join}
use outline_gate.Bypass.Rule.{ip}
use outline_gate.Go.Unicode.{ascii}
use outline_gate.Go.Base64.{std_decode, decode_padded, sextet}
use outline_gate.Go.HostPort.{cut, join_host_port}
use outline_gate.Go.IpString.{itoa}
use outline_gate.Config.Backend.{redact_access_key}
use outline_gate.Config.Backend.Redacted.{redact_access_key-hides}
use outline_gate.Outline.Ssconf.{Web, OutlineJson, expand_access_key}
use outline_gate.Web.{Decoded, Request, RulesApi, Server, not_found, write_json, deleted_body}
use outline_gate.Web.Auth.{check_token, unauthorized, bytes_of, token_auth}
use outline_gate.Web.Mount.{mount, selected, patterns, serve}
use outline_gate.Web.Mount.Guarded.{IsPublic, serve-IsPublic}
use outline_gate.Web.Rules.{route_rules}
use outline_gate.Web.Connections.{
  ping_frame, snapshot_frame, ticked, left, stream_frames, stream_loop,
}
use outline_gate.Web.Index.{inject_token, insert_before}

redact_access_key-hides_example :
    redact_access_key (codes "ss://" ++ (codes "Y2hh@cha" ++ b'@' ∷ codes "192.0.2.1:443"))
    ≡ codes "ss://***@" ++ codes "192.0.2.1:443"
redact_access_key-hides_example =
    redact_access_key-hides (codes "Y2hh@cha") (codes "192.0.2.1:443") (ground arith)

abbrev absent : {A : Type 0} → A → Decoded A
absent a = record { value = a; error = some (codes "EOF") }

abbrev pub request : Text → Text → Text → Request
request method path auth = record {
  method = method;
  path = path;
  authorization = auth;
  query = λ k. [];
  body_rule = record { value = codes "192.0.2.1"; error = none };
  body_rules = absent [];
  body_key = absent [];
  body_backend = absent [];
  body_scope = absent [];
  now = 0;
  can_flush = true;
}

-- The state counts the removals and the restarts.
abbrev counting : RulesApi ℕ
counting = record {
  rules = λ s. [];
  add_rule = λ raw s. (s, ok (record { raw = raw; kind = ip; net = none; host = [] }));
  remove_rule = λ raw s. (suc s, ok true);
  set_rules = λ raws s. (s, none);
  effective = λ s. [];
  resolved = λ s. [];
  last_error = λ s. [];
  refresh = λ s. (s, none);
}

abbrev server : Server ℕ
server = record {
  manager = some counting;
  block = none;
  outline = none;
  tunnel = none;
  conn_log = none;
  status = none;
  version = codes "v1";
  token = codes "secret";
  index = some (some (codes "<head></head>"));
  asset = λ r. not_found;
  restart_services = some (λ s. (suc s, ok []));
  restart_container = none;
}

abbrev pub quoted : Text → Text
quoted t = b'"' ∷ (t ++ b'"' ∷ [])

abbrev pub find_pattern : List Text → Text → Option Text
find_pattern [] p = none
find_pattern (q ∷ qs) p = elim (text_eq q p) [ true ↦ some q | false ↦ find_pattern qs p ]

abbrev removal : Text → Request
removal auth = request (codes "DELETE") (codes "/api/v1/bypass") auth

refused : check_token (removal (codes "Bearer wrong")) (codes "secret") true ≡ false
unfolding check_token trim_space
refused = refl

serve-IsPublic_example :
    (serve find_pattern (mount server quoted ascii) (removal (codes "Bearer wrong")) 0
      ≡ (0, unauthorized))
    ⊎ (IsPublic (
          selected
            (mount server quoted ascii)
            (find_pattern (patterns (mount server quoted ascii)) (codes "/api/v1/bypass")))
        × ((serve find_pattern (mount server quoted ascii) (removal (codes "Bearer wrong")) 0).0
            ≡ 0))
serve-IsPublic_example =
    serve-IsPublic server quoted ascii find_pattern (removal (codes "Bearer wrong")) 0 refused

-- The same with the token, as a bearer's and as a password.
removed_once :
    serve find_pattern (mount server quoted ascii) (removal (codes "Bearer secret")) 0
    ≡ (1, write_json 200 deleted_body)
unfolding serve mount token_auth check_token trim_space route_rules trim_suffix
removed_once = refl

password_taken : check_token (removal (codes "Basic YTpzZWNyZXQ=")) (codes "secret") false ≡ true
unfolding check_token std_decode decode_padded trim_space sextet cut bytes_of
password_taken = refl

token_shown :
    inject_token quoted (codes "<head></head>") (codes "t")
    ≡ codes "<head><script>window.__OG_UI_TOKEN__=\"t\";</script></head>"
unfolding inject_token insert_before
token_shown = refl

stream_ends : stream_frames [] (ticked ∷ left ∷ ticked ∷ []) 9 ≡ snapshot_frame [] ∷ ping_frame ∷ []
unfolding stream_frames stream_loop
stream_ends = refl

-- A server with one document.
abbrev document : OutlineJson
document = record {
  server = codes "192.0.2.1";
  server_port = pos 443;
  password = codes "pw";
  method = codes "aes";
  prefix = [];
}

abbrev web : Web
web = record {
  parse_url = λ key. some (record { scheme = codes "ssconf"; https_text = codes "https://h/k" });
  fetch = λ url. some (record { status = 200; body = some (codes " {}") });
  as_outline = λ body. some document;
  as_complaint = λ body. none;
  query_escape = λ t. t;
}

key_expanded :
    expand_access_key web (λ t. t) (codes "tls:sni=x| ssconf://h/k")
    ≡ ok (codes "tls:sni=x|ss://YWVzOnB3@192.0.2.1:443")
unfolding expand_access_key trim_space split join join_host_port itoa
key_expanded = refl
