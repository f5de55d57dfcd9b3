-- ===== src/Web/Handlers.antt =====
-- internal/webui/outline.go, tunnel.go, restart.go, server.go and connections.go: the handlers of the
-- Outline key, the switch of the tunnel, the restart, the version and the status.
use outline_gate.Prelude.{ℕ, ◌-◌, Bool, ◌||◌, [], Option, some, none, if◌then◌else◌}
use outline_gate.Prelude.Result.{Result, ok, err}
use outline_gate.Go.Text.{Text, codes, text_eq, is_empty, trim_space, has_part}
use outline_gate.Go.Unicode.{Unicode, lower}
use outline_gate.Connlog.Methods.{Counts}
use outline_gate.Web.{
  Decoded, Response, OutlineStatus, OutlineApi, TunnelStatus, TunnelApi, RuntimeStatus, LogApi,
  StatusBody, Server, Handler, write_json, write_err, if_decoded, not_allowed, get_method,
  post_method, put_method, version_body, outline_body, replaced_body, tunnel_body, switched_body,
  restart_body, status_body,
}

-- `handleVersion`.
abbrev or_dev : Text → Text
or_dev v = if is_empty v then codes "vdev" else v

abbrev pub is_put : Text → Bool
is_put m = text_eq m put_method || text_eq m post_method

abbrev pub minute : ℕ
minute = 60000000000

abbrev shown : Text → Option Text
shown v = if is_empty v then none else some v

abbrev version_entry : Text → Option RuntimeStatus → Option Text
version_entry v none = shown v
version_entry v (some st) = if is_empty st.version then shown v else some st.version

abbrev asked {ℓ} : {A : Type ℓ} {B : Type 0} → (A → B) → Option A → Option B
asked f none = none
asked f (some a) = some (f a)

module _ {S : Type 0} where
  abbrev status_version : Option (S → RuntimeStatus) → S → Text
  status_version none s = []
  status_version (some f) s = (f s).version

  unfoldable pub handle_version : Server S → Handler S
  handle_version v r s =
      let found = if is_empty v.version then status_version v.status s else v.version in
      if text_eq r.method get_method
      then (s, write_json 200 (version_body (or_dev found)))
      else (s, not_allowed (codes "GET"))

  -- `handleOutline`.
  abbrev pub outline_answer : S × (OutlineStatus × Option Text) → S × Response
  outline_answer (s, (st, none)) = (s, write_json 200 (replaced_body none st))
  outline_answer (s, (st, some e)) =
      if has_part e (codes "persist failed")
      then (s, write_json 200 (replaced_body (some e) st))
      else (s, write_err 400 e)

  abbrev pub put_key : OutlineApi S → Decoded Text → S → S × Response
  put_key api d s = if_decoded d.error s (outline_answer (api.replace d.value s))

  unfoldable pub handle_outline : OutlineApi S → Handler S
  handle_outline api r s =
      if text_eq r.method get_method
      then (s, write_json 200 (outline_body (api.status s)))
      else if is_put r.method
      then put_key api r.body_key s
      else (s, not_allowed (codes "GET, PUT, POST"))

  -- `handleTunnel`.
  abbrev pub tunnel_answer : S × (TunnelStatus × Option Text) → S × Response
  tunnel_answer (s, (st, none)) = (s, write_json 200 (switched_body st))
  tunnel_answer (s, (st, some e)) = (s, write_err 400 e)

  abbrev pub put_backend : TunnelApi S → Decoded Text → S → S × Response
  put_backend api d s = if_decoded d.error s (tunnel_answer (api.set_backend d.value s))

  unfoldable pub handle_tunnel : TunnelApi S → Handler S
  handle_tunnel api r s =
      if text_eq r.method get_method
      then (s, write_json 200 (tunnel_body (api.status s)))
      else if is_put r.method
      then put_backend api r.body_backend s
      else (s, not_allowed (codes "GET, PUT, POST"))

  -- `handleRestart`. The restart of the container follows the answer.
  abbrev pub restarted : S × Result Text Text → S × Response
  restarted (s, err e) = (s, write_err 502 e)
  restarted (s, ok msg) = (
    s,
    write_json 200 (
        restart_body (codes "services")
          (if is_empty msg then codes "службы перезапущены" else msg)),
  )

  abbrev pub restart_all : Option (S → S × Result Text Text) → S → S × Response
  restart_all none s = (s, write_err 501 (codes "restart is not available"))
  restart_all (some f) s = restarted (f s)

  abbrev pub restart_host : Option (S → S) → S → S × Response
  restart_host none s = (s, write_err 501 (codes "container restart is not available"))
  restart_host (some f) s =
      (f s, write_json 200 (restart_body (codes "container") (codes "контейнер перезапускается")))

  abbrev pub restart_scope : Server S → Text → S → S × Response
  restart_scope v scope s =
      if text_eq scope (codes "services") || is_empty scope
      then restart_all v.restart_services s
      else if text_eq scope (codes "container")
      then restart_host v.restart_container s
      else (s, write_err 400 (codes "scope must be services or container"))

  abbrev pub with_scope : Server S → Unicode → Text → Option Text → S → S × Response
  with_scope v u scope none s = restart_scope v (lower u (trim_space scope)) s
  with_scope v u scope (some e) s =
      if text_eq e (codes "EOF")
      then restart_scope v (lower u (trim_space scope)) s
      else (s, write_err 400 (codes "invalid JSON"))

  unfoldable pub handle_restart : Server S → Unicode → Handler S
  handle_restart v u r s =
      if text_eq r.method post_method
      then with_scope v u r.body_scope.value r.body_scope.error s
      else (s, not_allowed (codes "POST"))

  -- `handleStatus`.
  abbrev pub log_status : Option (LogApi S) → ℕ → S → S × Option (ℕ × ℕ × Counts)
  log_status none now s = (s, none)
  log_status (some api) now s =
      let w = api.stats (now - minute) s in
      let n = api.len w.0 in (n.0, some (api.capacity w.0, n.1, w.1))

  unfoldable pub handle_status : Server S → Handler S
  handle_status v r s =
      let runtime = asked (λ (f : S → RuntimeStatus). f s) v.status in
      let log = log_status v.conn_log r.now s in
      let body : StatusBody = record {
        version = version_entry v.version runtime;
        outline = asked (λ (a : OutlineApi S). a.status s) v.outline;
        tunnel = asked (λ (a : TunnelApi S). a.status s) v.tunnel;
        runtime = runtime;
        conn_log = log.1;
      } in
      if text_eq r.method get_method
      then (log.0, write_json 200 (status_body body))
      else (s, not_allowed (codes "GET"))
