-- ===== src/Web/Mount/Kept.antt =====
-- internal/webui: what the operations behind the handlers keep, every request keeps.
pub mod Handlers
use outline_gate.Prelude.{
  ℕ, ◌-◌, sym, ℤ, pos, ◌||◌, Bool, true, false, List, [], ◌∷◌, ◌++◌, Option, some, none, All,
  All-append, if-both, length, if◌then◌else◌,
}
use mathlib.Core.Path.{subst}
use outline_gate.Web.Mount.Guarded.{serve_ui-IsReadOnly}
use outline_gate.Prelude.Result.{Result, ok, err}
use outline_gate.Go.Text.{
  Text, codes, text_eq, is_empty, trim_space, trim_prefix, trim_suffix, has_part,
}
use outline_gate.Go.Unicode.{Unicode, lower}
use outline_gate.Bypass.Rule.{Rule}
use outline_gate.Web.{
  Request, Response, OutlineStatus, TunnelStatus, RulesApi, OutlineApi, TunnelApi, LogApi, Server,
  Handler, if_decoded, get_method, post_method, put_method, delete_method,
}
use outline_gate.Web.Auth.{token_auth, has_access}
use outline_gate.Web.Rules.{
  added, removed, replaced, refreshed, handle_rules, handle_effective, handle_apply, route_rules,
}
use outline_gate.Web.Handlers.{
  handle_version, handle_outline, handle_tunnel, handle_restart, handle_status, outline_answer,
  tunnel_answer, is_put, minute, restarted, restart_all, restart_host, restart_scope, with_scope,
  log_status,
}
use outline_gate.Web.Connections.{limit_of, handle_connections, handle_stream, route_connections}
use outline_gate.Web.Index.{serve_ui}
use outline_gate.Web.Mount.{
  Route, guarded, rules_routes, outline_routes, tunnel_routes, log_routes, redirect, mount,
  find_route, selected, patterns, run_route, serve,
}
use outline_gate.Web.Mount.Kept.Handlers.{
  Leaves, stay, Keeps, route_rules-Keeps, handle_outline-Keeps, handle_tunnel-Keeps,
  handle_restart-Keeps, handle_status-Keeps, handle_stream-Keeps, route_connections-Keeps,
  RulesKeep, LogKeeps, Each, ServerKeeps,
}

module _ {S : Type 0} (P : S → Type 0) where
  token_auth-Keeps :
      (token : Text) (b : Bool) (h : Handler S) → Keeps P h → Keeps P (token_auth token b h)
  unfolding Keeps token_auth
  token_auth-Keeps token b h k r s p =
      if-both (Leaves P) (has_access token b r) _ _ (k r s p) (stay P s _ p)

  RouteKeeps : Route S → Type 0
  RouteKeeps w = Keeps P w.handler

  guarded-Keeps :
      (v : Server S) (b : Bool) (path : Text) (h : Handler S)
      → Keeps P h
      → All RouteKeeps (guarded v b path h)
  unfolding RouteKeeps
  guarded-Keeps v b path h k =
      (token_auth-Keeps v.token b h k, (token_auth-Keeps v.token b h k, tt))

  module _ (v : Server S) where
    rules_routes-Keeps :
        (prefix : Text) (o : Option (RulesApi S))
        → Each P (RulesKeep P) o
        → All RouteKeeps (rules_routes v prefix o)
    rules_routes-Keeps prefix none k = tt
    rules_routes-Keeps prefix (some api) k =
        guarded-Keeps v false prefix (route_rules api prefix) (route_rules-Keeps P api k prefix)

    outline_routes-Keeps :
        (o : Option (OutlineApi S))
        → Each P (λ (a : OutlineApi S). (key : Text) (s : S) → P s → P (a.replace key s).0) o
        → All RouteKeeps (outline_routes v o)
    outline_routes-Keeps none k = tt
    outline_routes-Keeps (some api) k =
        guarded-Keeps v false (codes "/api/v1/outline") (handle_outline api)
          (handle_outline-Keeps P api k)

    tunnel_routes-Keeps :
        (o : Option (TunnelApi S))
        → Each P (λ (a : TunnelApi S). (name : Text) (s : S) → P s → P (a.set_backend name s).0) o
        → All RouteKeeps (tunnel_routes v o)
    tunnel_routes-Keeps none k = tt
    tunnel_routes-Keeps (some api) k =
        guarded-Keeps v false (codes "/api/v1/tunnel") (handle_tunnel api)
          (handle_tunnel-Keeps P api k)

    log_routes-Keeps :
        (o : Option (LogApi S)) → Each P (LogKeeps P) o → All RouteKeeps (log_routes v o)
    log_routes-Keeps none k = tt
    log_routes-Keeps (some api) k =
        All-append RouteKeeps
          (guarded v true (codes "/api/v1/connections/stream") (handle_stream api))
          (guarded v false (codes "/api/v1/connections") (route_connections api))
          (guarded-Keeps v true (codes "/api/v1/connections/stream") (handle_stream api)
            (handle_stream-Keeps P api k))
          (guarded-Keeps v false (codes "/api/v1/connections") (route_connections api)
            (route_connections-Keeps P api k))

    handle_version-Keeps : Keeps P (handle_version v)
    unfolding Keeps handle_version
    handle_version-Keeps r s p =
        if-both (Leaves P) (text_eq r.method get_method) _ _ (stay P s _ p) (stay P s _ p)

    serve_ui-Keeps : (marshal : Text → Text) → Keeps P (serve_ui marshal v)
    unfolding Keeps Leaves
    serve_ui-Keeps marshal r s p = subst P (sym (serve_ui-IsReadOnly v marshal r s)) p

    redirect-Keeps : Keeps P (redirect v)
    unfolding Keeps
    redirect-Keeps r s p = stay P s _ p

    mount-Keeps :
        (marshal : Text → Text) (u : Unicode) → ServerKeeps P v → All RouteKeeps (mount v marshal u)
    unfolding RouteKeeps mount
    mount-Keeps marshal u k = (
      handle_version-Keeps,
      (
        serve_ui-Keeps marshal,
        (
          redirect-Keeps,
          All-append RouteKeeps (rules_routes v (codes "/api/v1/bypass") v.manager) _
              (rules_routes-Keeps (codes "/api/v1/bypass") v.manager k.0)
              (All-append RouteKeeps (rules_routes v (codes "/api/v1/block") v.block) _
                (rules_routes-Keeps (codes "/api/v1/block") v.block k.1)
                (All-append RouteKeeps (outline_routes v v.outline) _
                  (outline_routes-Keeps v.outline k.2)
                  (All-append RouteKeeps (tunnel_routes v v.tunnel) _
                    (tunnel_routes-Keeps v.tunnel k.3)
                    (All-append RouteKeeps (log_routes v v.conn_log) _
                      (log_routes-Keeps v.conn_log k.4)
                      (
                        token_auth-Keeps v.token false (handle_status v)
                            (handle_status-Keeps P v k),
                        (
                          token_auth-Keeps v.token false (handle_restart v u)
                              (handle_restart-Keeps P v k u),
                          tt,
                        ),
                      ))))),
        ),
      ),
    )

  find_route-Keeps :
      (path : Text) (rs : List (Route S))
      → All RouteKeeps rs
      → Each P RouteKeeps (find_route path rs)
  find_route-Keeps path [] h = tt
  find_route-Keeps path (r ∷ rs) (h, hs) =
      if-both (λ (o : Option (Route S)). Each P RouteKeeps o) (text_eq r.pattern path) (some r)
        (find_route path rs) h (find_route-Keeps path rs hs)

  selected-Keeps :
      (rs : List (Route S)) (o : Option Text)
      → All RouteKeeps rs
      → Each P RouteKeeps (selected rs o)
  selected-Keeps rs none h = tt
  selected-Keeps rs (some path) h = find_route-Keeps path rs h

  run_route-Keeps :
      (o : Option (Route S)) (r : Request) (s : S)
      → Each P RouteKeeps o
      → P s
      → P (run_route o r s).0
  unfolding RouteKeeps Keeps Leaves
  run_route-Keeps none r s k p = p
  run_route-Keeps (some w) r s k p = k r s p

  -- What the operations behind the handlers keep, a request keeps, whatever it is.
  pub serve-keeps :
      (v : Server S) (marshal : Text → Text) (u : Unicode) (select : List Text → Text → Option Text)
      (r : Request) (s : S)
      → ServerKeeps P v
      → P s
      → P (serve select (mount v marshal u) r s).0
  unfolding serve
  serve-keeps v marshal u select r s k p =
      let routes = mount v marshal u in
      let found = select (patterns routes) r.path in
      run_route-Keeps (selected routes found) r s
        (selected-Keeps routes found (mount-Keeps v marshal u k)) p
