-- ===== src/Web/Mount/Guarded.antt =====
-- internal/webui/server.go and auth.go: what a request without the token can do.
use outline_gate.Prelude.{
  ◌≡◌, ◌⊎◌, inl, inr, refl, Bool, true, false, ◌||◌, List, [], ◌∷◌, Option, some, none, All,
  All-append, arith, if-both,
}
use outline_gate.Go.Text.{Text, codes, text_eq}
use outline_gate.Go.Unicode.{Unicode}
use outline_gate.Web.{Request, Response, RulesApi, OutlineApi, TunnelApi, LogApi, Server, Handler}
use outline_gate.Web.Auth.{token_auth, check_token, unauthorized}
use outline_gate.Web.Handlers.{handle_version}
use outline_gate.Web.Connections.{handle_stream, route_connections}
use outline_gate.Web.Index.{serve_ui, serve_index}
use outline_gate.Web.Mount.{
  Route, both, guarded, rules_routes, outline_routes, tunnel_routes, log_routes, private_routes,
  mount, find_route, selected, patterns, serve, run_route,
}

-- A token that the stream refuses is refused everywhere.
check_token_query :
    (r : Request) (want : Text) → check_token r want true ≡ false → check_token r want false ≡ false
unfolding check_token
check_token_query r want h = ground arith

-- The patterns that need no token.
abbrev pub is_open : Text → Bool
is_open p =
    text_eq p (codes "/api/v1/version") || text_eq p (codes "/ui/") || text_eq p (codes "/ui")

module _ {S : Type 0} where
  -- A handler that does not change the state.
  abbrev pub IsReadOnly : Handler S → Type 0
  IsReadOnly h = (r : Request) (s : S) → (h r s).0 ≡ s

  -- Without the token, the handler answers 401 and changes nothing.
  abbrev pub IsGuarded : Text → Handler S → Type 0
  IsGuarded token h =
      (r : Request) (s : S) → check_token r token true ≡ false → h r s ≡ (s, unauthorized)

  token_auth-IsGuarded :
      (token : Text) (b : Bool) (h : Handler S) → IsGuarded token (token_auth token b h)
  unfolding token_auth
  token_auth-IsGuarded token true h r s e = ground arith
  token_auth-IsGuarded token false h r s e = ground (arith, check_token_query r token e)

  Sound : Text → Route S → Type 0
  Sound token w = IsGuarded token w.handler ⊎ (is_open w.pattern ≡ true) × IsReadOnly w.handler

  both-Sound :
      (token p : Text) (b : Bool) (h : Handler S)
      → All (Sound token) (both p (token_auth token b h))
  unfolding Sound
  both-Sound token p b h =
      (inl (token_auth-IsGuarded token b h), (inl (token_auth-IsGuarded token b h), tt))

  module _ (v : Server S) where
    rules_routes-Sound :
        (prefix : Text) (o : Option (RulesApi S)) → All (Sound v.token) (rules_routes v prefix o)
    rules_routes-Sound prefix none = tt
    rules_routes-Sound prefix (some api) = both-Sound v.token prefix false _

    outline_routes-Sound : (o : Option (OutlineApi S)) → All (Sound v.token) (outline_routes v o)
    outline_routes-Sound none = tt
    outline_routes-Sound (some api) = both-Sound v.token (codes "/api/v1/outline") false _

    tunnel_routes-Sound : (o : Option (TunnelApi S)) → All (Sound v.token) (tunnel_routes v o)
    tunnel_routes-Sound none = tt
    tunnel_routes-Sound (some api) = both-Sound v.token (codes "/api/v1/tunnel") false _

    log_routes-Sound : (o : Option (LogApi S)) → All (Sound v.token) (log_routes v o)
    log_routes-Sound none = tt
    log_routes-Sound (some api) =
        All-append (Sound v.token)
          (guarded v true (codes "/api/v1/connections/stream") (handle_stream api))
          (guarded v false (codes "/api/v1/connections") (route_connections api))
          (both-Sound v.token (codes "/api/v1/connections/stream") true (handle_stream api))
          (both-Sound v.token (codes "/api/v1/connections") false (route_connections api))

    private_routes-Sound : (u : Unicode) → All (Sound v.token) (private_routes v u)
    unfolding Sound
    private_routes-Sound u =
        let S' = Sound v.token in
        All-append S' (rules_routes v (codes "/api/v1/bypass") v.manager) _
          (rules_routes-Sound (codes "/api/v1/bypass") v.manager)
          (All-append S' (rules_routes v (codes "/api/v1/block") v.block) _
            (rules_routes-Sound (codes "/api/v1/block") v.block)
            (All-append S' (outline_routes v v.outline) _ (outline_routes-Sound v.outline) (
              All-append S' (tunnel_routes v v.tunnel) _ (tunnel_routes-Sound v.tunnel) (
                All-append S' (log_routes v v.conn_log) _ (log_routes-Sound v.conn_log) (
                  inl (token_auth-IsGuarded v.token false _),
                  (inl (token_auth-IsGuarded v.token false _), tt),
                )))))

    handle_version-IsReadOnly : IsReadOnly (handle_version v)
    unfolding handle_version
    handle_version-IsReadOnly r s = if-both (λ (o : S × Response). o.0 ≡ s) _ _ _ refl refl

    pub serve_ui-IsReadOnly : (marshal : Text → Text) → IsReadOnly (serve_ui marshal v)
    unfolding serve_ui serve_index
    serve_ui-IsReadOnly marshal r s =
        if-both (λ (o : S × Response). o.0 ≡ s) _ _ _
          (if-both (λ (o : S × Response). o.0 ≡ s) _ _ _ refl refl) refl

    mount-Sound : (marshal : Text → Text) (u : Unicode) → All (Sound v.token) (mount v marshal u)
    unfolding Sound mount
    mount-Sound marshal u = (
      inr (refl, handle_version-IsReadOnly),
      (inr (refl, serve_ui-IsReadOnly marshal), (inr (refl, λ r s. refl), private_routes-Sound u)),
    )

  -- The handler that a request reaches is public, or there is none.
  abbrev pub IsPublic : Option (Route S) → Type 0
  IsPublic none = Unit
  IsPublic (some w) = is_open w.pattern ≡ true

  SoundOption : Text → Option (Route S) → Type 0
  SoundOption token none = Unit
  SoundOption token (some w) = Sound token w

  find_route-Sound :
      (token p : Text) (rs : List (Route S))
      → All (Sound token) rs
      → SoundOption token (find_route p rs)
  unfolding SoundOption
  find_route-Sound token p [] hs = tt
  find_route-Sound token p (r ∷ rs) (h, hs) =
      if-both (SoundOption token) (text_eq r.pattern p) _ _ h (find_route-Sound token p rs hs)

  selected-Sound :
      (token : Text) (rs : List (Route S)) (o : Option Text)
      → All (Sound token) rs
      → SoundOption token (selected rs o)
  unfolding SoundOption
  selected-Sound token rs none hs = tt
  selected-Sound token rs (some p) hs = find_route-Sound token p rs hs

  run_route-Sound :
      (token : Text) (o : Option (Route S)) (r : Request) (s : S)
      → SoundOption token o
      → check_token r token true ≡ false
      → (run_route o r s ≡ (s, unauthorized)) ⊎ (IsPublic o × ((run_route o r s).0 ≡ s))
  unfolding SoundOption Sound
  run_route-Sound token none r s h e = inr (tt, refl)
  run_route-Sound token (some w) r s (inl h) e = inl (h r s e)
  run_route-Sound token (some w) r s (inr h) e = inr (h.0, h.1 r s)

  -- Without the token, whatever the path and the method are and however a path selects its pattern: the
  -- request is answered with 401, or it reaches no handler or one of the three public ones; in every case
  -- nothing is changed.
  pub serve-IsPublic :
      (v : Server S) (marshal : Text → Text) (u : Unicode) (select : List Text → Text → Option Text)
      (r : Request) (s : S)
      → check_token r v.token true ≡ false
      → (serve select (mount v marshal u) r s ≡ (s, unauthorized))
        ⊎ (IsPublic (selected (mount v marshal u) (select (patterns (mount v marshal u)) r.path))
            × ((serve select (mount v marshal u) r s).0 ≡ s))
  unfolding serve
  serve-IsPublic v marshal u select r s e =
      let routes = mount v marshal u in
      let found = select (patterns routes) r.path in
      run_route-Sound v.token (selected routes found) r s
        (selected-Sound v.token routes found (mount-Sound v marshal u)) e
