-- ===== src/Web/Mount/Kept/Handlers.antt =====
-- internal/webui: the handlers, on operations that keep a property of the state.
use outline_gate.Prelude.{
  ℕ, ◌-◌, ℤ, pos, ◌||◌, Bool, true, false, List, ◌++◌, Option, some, none, if-both, length,
  if◌then◌else◌,
}
use outline_gate.Prelude.Result.{Result, ok, err}
use outline_gate.Go.Text.{
  Text, codes, text_eq, is_empty, trim_space, trim_prefix, trim_suffix, has_part,
}
use outline_gate.Go.Unicode.{Unicode, lower}
use outline_gate.Bypass.Rule.{Rule}
use outline_gate.Web.{
  Request, Response, OutlineStatus, TunnelStatus, RulesApi, OutlineApi, TunnelApi, LogApi, Server,
  Handler, if_decoded, get_method, post_method, put_method, delete_method,
}
use outline_gate.Web.Rules.{
  added, removed, replaced, refreshed, handle_rules, handle_effective, handle_apply, route_rules,
}
use outline_gate.Web.Handlers.{
  handle_outline, handle_tunnel, handle_restart, handle_status, outline_answer, tunnel_answer,
  is_put, minute, restarted, restart_all, restart_host, restart_scope, with_scope, log_status,
}
use outline_gate.Web.Connections.{limit_of, handle_connections, handle_stream, route_connections}

module _ {S : Type 0} (P : S → Type 0) where
  -- The operations of an interface keep `P`.
  abbrev pub RulesKeep : RulesApi S → Type 0
  RulesKeep api =
      ((raw : Text) (s : S) → P s → P (api.add_rule raw s).0)
      × ((raw : Text) (s : S) → P s → P (api.remove_rule raw s).0)
      × ((raws : List Text) (s : S) → P s → P (api.set_rules raws s).0)
      × ((s : S) → P s → P (api.refresh s).0)

  abbrev pub LogKeeps : LogApi S → Type 0
  LogKeeps api =
      ((n : ℤ) (s : S) → P s → P (api.snapshot n s).0)
      × ((since : ℕ) (s : S) → P s → P (api.stats since s).0)
      × ((s : S) → P s → P (api.len s).0)

  abbrev pub Each {ℓ} : {A : Type ℓ} → (A → Type 0) → Option A → Type 0
  Each Q none = Unit
  Each Q (some a) = Q a

  abbrev pub ServerKeeps : Server S → Type 0
  ServerKeeps v =
      Each RulesKeep v.manager
      × Each RulesKeep v.block
      × Each (λ (a : OutlineApi S). (key : Text) (s : S) → P s → P (a.replace key s).0) v.outline
      × Each (λ (a : TunnelApi S). (name : Text) (s : S) → P s → P (a.set_backend name s).0)
          v.tunnel
      × Each LogKeeps v.conn_log
      × Each (λ (f : S → S × Result Text Text). (s : S) → P s → P (f s).0) v.restart_services
      × Each (λ (f : S → S). (s : S) → P s → P (f s)) v.restart_container

  unfoldable pub Leaves : S × Response → Type 0
  Leaves o = P o.0

  pub stay : (s : S) (w : Response) → P s → Leaves (s, w)
  unfolding Leaves
  stay s w p = p

  unfoldable pub Keeps : Handler S → Type 0
  Keeps h = (r : Request) (s : S) → P s → Leaves (h r s)

  if_decoded-Leaves :
      (e : Option Text) (s : S) (o : S × Response) → P s → Leaves o → Leaves (if_decoded e s o)
  unfolding Leaves
  if_decoded-Leaves (some e) s o p l = p
  if_decoded-Leaves none s o p l = l

  module _ (api : RulesApi S) (k : RulesKeep api) where
    added-Leaves : (o : S × Result Text Rule) → P o.0 → Leaves (added api o)
    unfolding Leaves
    added-Leaves (s, ok r) p = p
    added-Leaves (s, err e) p = p

    removed-Leaves : (o : S × Result Text Bool) → P o.0 → Leaves (removed api o)
    unfolding Leaves
    removed-Leaves (s, err e) p = p
    removed-Leaves (s, ok true) p = p
    removed-Leaves (s, ok false) p = p

    replaced-Leaves : (n : ℕ) (o : S × Option Text) → P o.0 → Leaves (replaced api n o)
    unfolding Leaves
    replaced-Leaves n (s, some e) p = p
    replaced-Leaves n (s, none) p = p

    handle_rules-Keeps : Keeps (handle_rules api)
    unfolding Keeps handle_rules
    handle_rules-Keeps r s p =
        let q = r.query (codes "rule") in
        let raw = if is_empty q then r.body_rule.value else q in
        if-both Leaves (text_eq r.method get_method) _ _ (stay s _ p) (
          if-both Leaves (text_eq r.method post_method) _ _
            (if_decoded-Leaves r.body_rule.error s _ p
              (added-Leaves (api.add_rule r.body_rule.value s) (k.0 r.body_rule.value s p)))
            (if-both Leaves (text_eq r.method delete_method) _ _
              (if-both Leaves (is_empty raw) _ _ (stay s _ p)
                (removed-Leaves (api.remove_rule raw s) (k.1 raw s p)))
              (if-both Leaves (text_eq r.method put_method) _ _
                (if_decoded-Leaves r.body_rules.error s _ p (
                  replaced-Leaves (length r.body_rules.value) (api.set_rules r.body_rules.value s)
                    (k.2 r.body_rules.value s p)))
                (stay s _ p))))

    refreshed-Leaves : (o : S × Option Text) → P o.0 → Leaves (refreshed api o)
    unfolding Leaves
    refreshed-Leaves (s, e) p = p

    pub route_rules-Keeps : (prefix : Text) → Keeps (route_rules api prefix)
    unfolding Keeps route_rules handle_effective handle_apply
    route_rules-Keeps prefix r s p =
        let path = trim_suffix (trim_prefix r.path prefix) (codes "/") in
        if-both Leaves (is_empty path) _ _ (handle_rules-Keeps r s p) (
          if-both Leaves (text_eq path (codes "/effective")) _ _
            (if-both Leaves (text_eq r.method get_method) _ _ (stay s _ p) (stay s _ p))
            (if-both Leaves (text_eq path (codes "/apply")) _ _
              (if-both Leaves (text_eq r.method post_method) _ _
                (refreshed-Leaves (api.refresh s) (k.3 s p)) (stay s _ p))
              (stay s _ p)))

  outline_answer-Leaves :
      (o : S × (OutlineStatus × Option Text)) → P o.0 → Leaves (outline_answer o)
  outline_answer-Leaves (s, (st, none)) p = stay s _ p
  outline_answer-Leaves (s, (st, some e)) p =
      if-both Leaves (has_part e (codes "persist failed")) _ _ (stay s _ p) (stay s _ p)

  pub handle_outline-Keeps :
      (api : OutlineApi S)
      → ((key : Text) (s : S) → P s → P (api.replace key s).0)
      → Keeps (handle_outline api)
  unfolding Keeps handle_outline
  handle_outline-Keeps api k r s p = if-both Leaves (text_eq r.method get_method) _ _ (stay s _ p) (
      if-both Leaves (is_put r.method) _ _
        (if_decoded-Leaves r.body_key.error s _ p
          (outline_answer-Leaves (api.replace r.body_key.value s) (k r.body_key.value s p)))
        (stay s _ p))

  tunnel_answer-Leaves : (o : S × (TunnelStatus × Option Text)) → P o.0 → Leaves (tunnel_answer o)
  tunnel_answer-Leaves (s, (st, none)) p = stay s _ p
  tunnel_answer-Leaves (s, (st, some e)) p = stay s _ p

  pub handle_tunnel-Keeps :
      (api : TunnelApi S)
      → ((name : Text) (s : S) → P s → P (api.set_backend name s).0)
      → Keeps (handle_tunnel api)
  unfolding Keeps handle_tunnel
  handle_tunnel-Keeps api k r s p = if-both Leaves (text_eq r.method get_method) _ _ (stay s _ p) (
      if-both Leaves (is_put r.method) _ _
        (if_decoded-Leaves r.body_backend.error s _ p (
          tunnel_answer-Leaves (api.set_backend r.body_backend.value s)
            (k r.body_backend.value s p)))
        (stay s _ p))

  restarted-Leaves : (o : S × Result Text Text) → P o.0 → Leaves (restarted o)
  restarted-Leaves (s, ok msg) p = stay s _ p
  restarted-Leaves (s, err e) p = stay s _ p

  restart_all-Leaves :
      (f : Option (S → S × Result Text Text)) (s : S)
      → Each (λ (g : S → S × Result Text Text). (t : S) → P t → P (g t).0) f
      → P s
      → Leaves (restart_all f s)
  restart_all-Leaves none s k p = stay s _ p
  restart_all-Leaves (some f) s k p = restarted-Leaves (f s) (k s p)

  restart_host-Leaves :
      (f : Option (S → S)) (s : S)
      → Each (λ (g : S → S). (t : S) → P t → P (g t)) f
      → P s
      → Leaves (restart_host f s)
  restart_host-Leaves none s k p = stay s _ p
  restart_host-Leaves (some f) s k p = stay (f s) _ (k s p)

  module _ (v : Server S) (k : ServerKeeps v) where
    restart_scope-Leaves : (scope : Text) (s : S) → P s → Leaves (restart_scope v scope s)
    restart_scope-Leaves scope s p =
        if-both Leaves (text_eq scope (codes "services") || is_empty scope) _ _
          (restart_all-Leaves v.restart_services s k.5 p)
          (if-both Leaves (text_eq scope (codes "container")) _ _
            (restart_host-Leaves v.restart_container s k.6 p) (stay s _ p))

    with_scope-Leaves :
        (u : Unicode) (scope : Text) (e : Option Text) (s : S)
        → P s
        → Leaves (with_scope v u scope e s)
    with_scope-Leaves u scope none s p = restart_scope-Leaves (lower u (trim_space scope)) s p
    with_scope-Leaves u scope (some e) s p =
        if-both Leaves (text_eq e (codes "EOF")) _ _
          (restart_scope-Leaves (lower u (trim_space scope)) s p) (stay s _ p)

    pub handle_restart-Keeps : (u : Unicode) → Keeps (handle_restart v u)
    unfolding Keeps handle_restart
    handle_restart-Keeps u r s p =
        if-both Leaves (text_eq r.method post_method) _ _
          (with_scope-Leaves u r.body_scope.value r.body_scope.error s p) (stay s _ p)

    log_status-keeps :
        (o : Option (LogApi S)) (now : ℕ) (s : S) → Each LogKeeps o → P s → P (log_status o now s).0
    log_status-keeps none now s l p = p
    log_status-keeps (some api) now s l p = l.2 _ (l.1 _ s p)

    pub handle_status-Keeps : Keeps (handle_status v)
    unfolding Keeps handle_status
    handle_status-Keeps r s p =
        if-both Leaves (text_eq r.method get_method) _ _
          (stay _ _ (log_status-keeps v.conn_log r.now s k.4 p)) (stay s _ p)

  module _ (api : LogApi S) (l : LogKeeps api) where
    pub handle_stream-Keeps : Keeps (handle_stream api)
    unfolding Keeps handle_stream
    handle_stream-Keeps r s p =
        if-both Leaves (text_eq r.method get_method) _ _
          (if-both Leaves r.can_flush _ _ (stay (api.snapshot (pos 0) s).0 _ (l.0 (pos 0) s p))
            (stay s _ p))
          (stay s _ p)

    handle_connections-Keeps : Keeps (handle_connections api)
    unfolding Keeps handle_connections
    handle_connections-Keeps r s p =
        let w = api.snapshot (limit_of (r.query (codes "limit"))) s in
        let c = api.stats (r.now - minute) w.0 in
        if-both Leaves (text_eq r.method get_method) _ _
          (stay (api.len c.0).0 _
            (l.2 c.0 (l.1 (r.now - minute) w.0 (l.0 (limit_of (r.query (codes "limit"))) s p))))
          (stay s _ p)

    pub route_connections-Keeps : Keeps (route_connections api)
    unfolding Keeps route_connections
    route_connections-Keeps r s p =
        let c = codes "/api/v1/connections" in
        let t = codes "/api/v1/connections/stream" in
        if-both Leaves (text_eq r.path c || text_eq r.path (c ++ codes "/")) _ _
          (handle_connections-Keeps r s p)
          (if-both Leaves (text_eq r.path t || text_eq r.path (t ++ codes "/")) _ _
            (handle_stream-Keeps r s p) (stay s _ p))
