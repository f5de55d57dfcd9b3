-- ===== src/Web/Mount.antt =====
-- internal/webui/server.go: `Mount`, the patterns that it registers with their handlers. Which of the
-- registered patterns a path selects is the business of `http.ServeMux`, so it is a parameter.
pub mod Guarded
pub mod Kept
use outline_gate.Prelude.{
  ℕ, Bool, true, false, List, [], ◌∷◌, ◌++◌, Option, some, none, if◌then◌else◌,
}
use outline_gate.Go.Text.{Text, codes, text_eq}
use outline_gate.Go.Unicode.{Unicode}
use outline_gate.Web.{
  Request, Response, RulesApi, OutlineApi, TunnelApi, LogApi, Server, Handler, write_json,
  redirect_body, not_found,
}
use outline_gate.Web.Auth.{token_auth}
use outline_gate.Web.Rules.{route_rules}
use outline_gate.Web.Handlers.{
  handle_version, handle_outline, handle_tunnel, handle_restart, handle_status,
}
use outline_gate.Web.Connections.{handle_stream, route_connections}
use outline_gate.Web.Index.{serve_ui}

pub record Route (S : Type 0) : Type 0 where
  pub pattern : Text
  pub handler : Handler S

abbrev pub route : {S : Type 0} → Text → Handler S → Route S
route p h = record { pattern = p; handler = h }

-- A handler under a path and the subtree of that path.
abbrev pub both : {S : Type 0} → Text → Handler S → List (Route S)
both p h = route p h ∷ route (p ++ codes "/") h ∷ []

module _ {S : Type 0} (v : Server S) where
  abbrev pub guarded : Bool → Text → Handler S → List (Route S)
  guarded allow_query p h = both p (token_auth v.token allow_query h)

  abbrev pub rules_routes : Text → Option (RulesApi S) → List (Route S)
  rules_routes prefix none = []
  rules_routes prefix (some api) = guarded false prefix (route_rules api prefix)

  abbrev pub outline_routes : Option (OutlineApi S) → List (Route S)
  outline_routes none = []
  outline_routes (some api) = guarded false (codes "/api/v1/outline") (handle_outline api)

  abbrev pub tunnel_routes : Option (TunnelApi S) → List (Route S)
  tunnel_routes none = []
  tunnel_routes (some api) = guarded false (codes "/api/v1/tunnel") (handle_tunnel api)

  abbrev pub log_routes : Option (LogApi S) → List (Route S)
  log_routes none = []
  log_routes (some api) =
      guarded true (codes "/api/v1/connections/stream") (handle_stream api)
      ++ guarded false (codes "/api/v1/connections") (route_connections api)

  abbrev pub redirect : Handler S
  redirect r s = (s, write_json 302 (redirect_body (codes "/ui/")))

  -- The patterns with a token, and the public ones.
  abbrev pub private_routes : Unicode → List (Route S)
  private_routes u =
      rules_routes (codes "/api/v1/bypass") v.manager
      ++ (rules_routes (codes "/api/v1/block") v.block
          ++ (outline_routes v.outline
              ++ (tunnel_routes v.tunnel
                  ++ (log_routes v.conn_log
                      ++ (route (codes "/api/v1/status")
                            (token_auth v.token false (handle_status v))
                          ∷ route (codes "/api/v1/restart")
                              (token_auth v.token false (handle_restart v u))
                          ∷ [])))))

  abbrev pub public_routes : (Text → Text) → List (Route S)
  public_routes marshal =
      route (codes "/api/v1/version") (handle_version v)
      ∷ route (codes "/ui/") (serve_ui marshal v)
      ∷ route (codes "/ui") redirect
      ∷ []

  -- `Mount`.
  unfoldable pub mount : (Text → Text) → Unicode → List (Route S)
  mount marshal u = public_routes marshal ++ private_routes u

abbrev pub find_route : {S : Type 0} → Text → List (Route S) → Option (Route S)
find_route p [] = none
find_route p (r ∷ rs) = let rest = find_route p rs in if text_eq r.pattern p then some r else rest

abbrev pub run_route : {S : Type 0} → Option (Route S) → Handler S
run_route none r s = (s, not_found)
run_route (some w) r s = w.handler r s

-- A request to the server: `select` finds the pattern for the path among those registered.
abbrev pub patterns : {S : Type 0} → List (Route S) → List Text
patterns [] = []
patterns (r ∷ rs) = r.pattern ∷ patterns rs

abbrev pub selected : {S : Type 0} → List (Route S) → Option Text → Option (Route S)
selected routes none = none
selected routes (some p) = find_route p routes

unfoldable pub serve : {S : Type 0} → (List Text → Text → Option Text) → List (Route S) → Handler S
serve select routes r s = run_route (selected routes (select (patterns routes) r.path)) r s
