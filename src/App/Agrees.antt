-- ===== src/App/Agrees.antt =====
-- cmd/outline-gate/main.go: the gateway's rules and the decisions in the process rest on one engine.
use outline_gate.Prelude.{
  ◌≡◌, refl, sym, Bool, true, false, List, [], ◌∷◌, Option, some, none, if-both, length, drop,
  if◌then◌else◌,
}
use mathlib.Core.Path.{subst}
use outline_gate.Prelude.Result.{Result, ok, err}
use outline_gate.Go.Text.{Text, text_eq}
use outline_gate.Go.Ip.{IpNet}
use outline_gate.Config.Types.{Config}
use outline_gate.Config.Backend.{persist_backend}
use outline_gate.Routing.{Engine}
use outline_gate.Bypass.Disk.{Disk}
use outline_gate.Bypass.Manager.{Manager, set_static, load_manager, effective_nets}
use outline_gate.Gateway.Control.{Gateway, System, apply, flush}
use outline_gate.Gateway.Control
use outline_gate.Gateway.Control.Kept.{
  HasEngine, apply-HasEngine, flush-HasEngine, update_engine-HasEngine,
}
use outline_gate.Amnezia.Client
use outline_gate.Amnezia.Conf
use outline_gate.Amnezia.Client.Up.{up}
use outline_gate.Outline
use outline_gate.Tunnel.{
  Mux, MuxError, set_backend, backend_of, normalize, backend_outline, backend_amnezia,
}
use outline_gate.App.{
  Process, Around, Transport, Peers, build_engine, push_to, with_engine, rebuild_with, rebuild_push,
  fire_all, take_bypass, load_bypass, load_block, clear_path,
}
use outline_gate.App.Boot.{Found, boot}
use outline_gate.App.Actions.{
  ActionError, no_backend, bad_reconnect, mux_set, set_mux, down_if, settle, after_set, after_up,
  to_amnezia, to_outline, switch_backend, reapplied, reapply, after_key, with_fresh,
  after_reconnect, restart_outline, restart_up, restart_amnezia, restart_services, reload_rules,
  fresh_gateway, apply_if, reload_with, reload_config, reload, flushed, shutdown, with_awg, Event,
  switches, restarts, reloads, pushes, stops, handle, run,
}

-- The gateway, if there is one, has the engine that the path decider reads.
abbrev Shares : Option Engine → Option Gateway → Type 0
Shares e none = Unit
Shares e (some g) = g.engine ≡ e

abbrev pub IsAgreed : {E : Type 0} → Process E → Type 0
IsAgreed p = Shares p.engine p.gw

module _ {E : Type 0} (a : Around E) where
  push_to-Shares :
      (e : Engine) (g : Option Gateway) (s : System) → Shares (some e) (push_to a e g s).0
  push_to-Shares e none s = tt
  push_to-Shares e (some g) s = update_engine-HasEngine a.print a.nft (some e) (g, s)

  with_engine-IsAgreed : (e : Engine) (p : Process E) → IsAgreed (with_engine a e p)
  with_engine-IsAgreed e p = push_to-Shares e p.gw p.system

  pub rebuild_push-IsAgreed : (p : Process E) → IsAgreed (rebuild_push a p)
  unfolding rebuild_push
  rebuild_push-IsAgreed p = with_engine-IsAgreed (build_engine (effective_nets p.bypass) p) p

  fire_all-IsAgreed :
      (more : List (List IpNet)) (p : Process E) → IsAgreed p → IsAgreed (fire_all a more p)
  unfolding fire_all
  fire_all-IsAgreed [] p i = i
  fire_all-IsAgreed (nets ∷ more) p i =
      fire_all-IsAgreed more (rebuild_with a nets p) (with_engine-IsAgreed (build_engine nets p) p)

  pub take_bypass-IsAgreed :
      (m : Manager E) (d : Disk) (p : Process E) → IsAgreed p → IsAgreed (take_bypass a m d p)
  unfolding take_bypass
  take_bypass-IsAgreed m d p i =
      fire_all-IsAgreed (drop (length p.bypass.notices) m.notices)
        (record p { bypass = m; bypass_disk = d }) i

  load_bypass-IsAgreed : (p : Process E) → IsAgreed p → IsAgreed (load_bypass a p)
  unfolding load_bypass
  load_bypass-IsAgreed p i =
      let w = load_manager a.unicode a.bypass_faults a.lookup p.bypass p.bypass_disk in
      take_bypass-IsAgreed w.0 w.1 p i

  load_block-IsAgreed : (p : Process E) → IsAgreed p → IsAgreed (load_block a p)
  unfolding load_block
  load_block-IsAgreed p i = i

  reload_rules-IsAgreed :
      (cfg : Config) (p : Process E) → IsAgreed p → IsAgreed (reload_rules a cfg p)
  reload_rules-IsAgreed cfg p i =
      let m = set_static cfg.bypass_cidrs p.bypass in
      let q : Process E = take_bypass a m p.bypass_disk p in
      load_block-IsAgreed (load_bypass a q)
        (load_bypass-IsAgreed q (take_bypass-IsAgreed m p.bypass_disk p i))

  mux_set-IsAgreed :
      (p : Process E) (r : Result MuxError (Mux Transport Peers))
      → IsAgreed p
      → IsAgreed (mux_set a p r).0
  mux_set-IsAgreed p (err e) i = i
  mux_set-IsAgreed p (ok m) i = i

  down_if-IsAgreed :
      (c : Option Client.Client) (p : Process E) → IsAgreed p → IsAgreed (down_if a c p)
  down_if-IsAgreed none p i = i
  down_if-IsAgreed (some c) p i = i

  settle-IsAgreed : (p : Process E) → IsAgreed (settle a p)
  settle-IsAgreed p =
      let w =
        persist_backend a.unicode a.backend_faults p.cfg.backend_persist_file (backend_of p.mux)
          p.backend_disk in
      rebuild_push-IsAgreed (record p { backend_disk = w.0 })

  after_set-IsAgreed :
      (o : Process E × Option ActionError) → IsAgreed o.0 → IsAgreed (after_set a o).0
  after_set-IsAgreed (p, some e) i = down_if-IsAgreed p.awg p i
  after_set-IsAgreed (p, none) i = settle-IsAgreed p

  set_mux-IsAgreed : (name : Text) (p : Process E) → IsAgreed p → IsAgreed (set_mux a name p).0
  set_mux-IsAgreed name p i = mux_set-IsAgreed p (set_backend a.unicode name p.mux) i

  after_up-IsAgreed :
      (p : Process E) (o : Client.Outcome) → IsAgreed p → IsAgreed (after_up a p o).0
  after_up-IsAgreed p (st, some e) i = set_mux-IsAgreed backend_outline (with_awg a p st) i
  after_up-IsAgreed p (st, none) i =
      after_set-IsAgreed (set_mux a backend_amnezia (with_awg a p st))
        (set_mux-IsAgreed backend_amnezia (with_awg a p st) i)

  to_amnezia-IsAgreed :
      (c : Option Client.Client) (p : Process E) → IsAgreed p → IsAgreed (to_amnezia a c p).0
  to_amnezia-IsAgreed none p i = i
  to_amnezia-IsAgreed (some c) p i = after_up-IsAgreed p (up a.wg (c, p.machine)) i

  pub switch_backend-IsAgreed :
      (name : Text) (p : Process E) → IsAgreed p → IsAgreed (switch_backend a name p).0
  unfolding switch_backend
  switch_backend-IsAgreed name p i =
      let n = normalize a.unicode name in
      let other : Process E × Option ActionError = (p, some (no_backend n)) in
      let rest : Process E × Option ActionError =
        if text_eq n backend_outline then to_outline a p else other in
      if-both (λ (o : Process E × Option ActionError). IsAgreed o.0) (text_eq n backend_amnezia)
        (to_amnezia a p.awg p) rest (to_amnezia-IsAgreed p.awg p i)
        (if-both (λ (o : Process E × Option ActionError). IsAgreed o.0) (text_eq n backend_outline)
          (to_outline a p) other (settle-IsAgreed (down_if a p.awg (set_mux a backend_outline p).0))
          i)

  reapplied-IsAgreed :
      (p : Process E) (o : Control.State × Option Text)
      → HasEngine p.engine o.0
      → IsAgreed (reapplied a p o).0
  reapplied-IsAgreed p ((g, s), none) i = i
  reapplied-IsAgreed p ((g, s), some e) i = i

  reapply-IsAgreed :
      (g : Option Gateway) (p : Process E)
      → Shares p.engine g
      → p.gw ≡ g
      → IsAgreed (reapply a g p).0
  reapply-IsAgreed none p i e = subst (Shares p.engine) (sym e) tt
  reapply-IsAgreed (some g) p i e =
      reapplied-IsAgreed p (apply a.print a.nft (g, p.system))
        (apply-HasEngine a.print a.nft p.engine (g, p.system) i)

  after_key-IsAgreed :
      (e : Outline.ClientError) (p : Process E) (o : Outline.Outcome)
      → IsAgreed p
      → IsAgreed (after_key a e p o).0
  after_key-IsAgreed e p (c, none) i = reapply-IsAgreed p.gw (record p { outline = c }) i refl
  after_key-IsAgreed e p (c, some x) i = i

  with_fresh-IsAgreed :
      (o : Option Config) (e : Outline.ClientError) (p : Process E)
      → IsAgreed p
      → IsAgreed (with_fresh a o e p).0
  with_fresh-IsAgreed none e p i = i
  with_fresh-IsAgreed (some c) e p i =
      if-both (λ (o : Process E × Result ActionError Text). IsAgreed o.0)
        (text_eq c.access_key p.outline.access_key) (p, err (bad_reconnect e))
        (after_key a e p (Outline.set_access_key a.network c.access_key p.outline)) i
        (after_key-IsAgreed e p (Outline.set_access_key a.network c.access_key p.outline) i)

  after_reconnect-IsAgreed :
      (p : Process E) (o : Outline.Outcome) → IsAgreed p → IsAgreed (after_reconnect a p o).0
  after_reconnect-IsAgreed p (c, none) i = reapply-IsAgreed p.gw (record p { outline = c }) i refl
  after_reconnect-IsAgreed p (c, some e) i =
      with_fresh-IsAgreed a.fresh e (record p { outline = c }) i

  restart_outline-IsAgreed : (p : Process E) → IsAgreed p → IsAgreed (restart_outline a p).0
  restart_outline-IsAgreed p i =
      after_reconnect-IsAgreed (clear_path p.outline.server_ip p)
        (Outline.reconnect a.network p.outline) i

  restart_up-IsAgreed :
      (p : Process E) (o : Client.Outcome) → IsAgreed p → IsAgreed (restart_up a p o).0
  restart_up-IsAgreed p (st, some e) i = i
  restart_up-IsAgreed p (st, none) i = rebuild_push-IsAgreed (with_awg a p st)

  restart_amnezia-IsAgreed :
      (c : Option Client.Client) (p : Process E) → IsAgreed p → IsAgreed (restart_amnezia a c p).0
  restart_amnezia-IsAgreed none p i = restart_outline-IsAgreed p i
  restart_amnezia-IsAgreed (some c) p i =
      restart_up-IsAgreed (clear_path (Conf.endpoint_ip c.conf) p) (up a.wg (c, p.machine)) i

  pub restart_services-IsAgreed : (p : Process E) → IsAgreed p → IsAgreed (restart_services a p).0
  unfolding restart_services
  restart_services-IsAgreed p i =
      if-both (λ (o : Process E × Result ActionError Text). IsAgreed o.0)
        (text_eq (backend_of p.mux) backend_amnezia) (restart_amnezia a p.awg p)
        (restart_outline a p) (restart_amnezia-IsAgreed p.awg p i) (restart_outline-IsAgreed p i)

  apply_if-IsAgreed :
      (b : Bool) (g : Option Gateway) (p : Process E)
      → p.gw ≡ g
      → IsAgreed p
      → IsAgreed (apply_if a b g p)
  apply_if-IsAgreed false g p e i = i
  apply_if-IsAgreed true none p e i = i
  apply_if-IsAgreed true (some g) p e i =
      apply-HasEngine a.print a.nft p.engine (g, p.system) (subst (Shares p.engine) e i)

  reload_with-IsAgreed :
      (cfg : Config) (g : Option Gateway) (p : Process E)
      → IsAgreed p
      → IsAgreed (reload_with a cfg g p)
  reload_with-IsAgreed cfg none p i = reload_rules-IsAgreed cfg p i
  reload_with-IsAgreed cfg (some g) p i =
      let q : Process E = reload_rules a cfg (fresh_gateway a cfg p) in
      apply_if-IsAgreed g.active q.gw q refl
        (reload_rules-IsAgreed cfg (fresh_gateway a cfg p) refl)

  reload_config-IsAgreed :
      (o : Option Config) (p : Process E) → IsAgreed p → IsAgreed (reload_config a o p)
  reload_config-IsAgreed none p i = i
  reload_config-IsAgreed (some cfg) p i =
      reload_with-IsAgreed cfg p.gw (record p { cfg = cfg; allow = cfg.socks_allow_cidrs }) i

  reload-IsAgreed : (p : Process E) → IsAgreed p → IsAgreed (reload a p)
  unfolding reload
  reload-IsAgreed p i = reload_config-IsAgreed a.fresh p i

  flushed-IsAgreed :
      (g : Option Gateway) (p : Process E) → p.gw ≡ g → IsAgreed p → IsAgreed (flushed a g p)
  flushed-IsAgreed none p e i = i
  flushed-IsAgreed (some g) p e i =
      flush-HasEngine a.print a.nft p.engine a.unicode (g, p.system) (subst (Shares p.engine) e i)

  pub shutdown-IsAgreed : (p : Process E) → IsAgreed p → IsAgreed (shutdown a p)
  unfolding shutdown
  shutdown-IsAgreed p i =
      let q : Process E = flushed a p.gw p in
      down_if-IsAgreed q.awg q (flushed-IsAgreed p.gw p refl i)

  handle-IsAgreed : (e : Event) (p : Process E) → IsAgreed p → IsAgreed (handle a e p)
  handle-IsAgreed (switches name) p i = switch_backend-IsAgreed name p i
  handle-IsAgreed restarts p i = restart_services-IsAgreed p i
  handle-IsAgreed reloads p i = reload-IsAgreed p i
  handle-IsAgreed pushes p i = rebuild_push-IsAgreed p
  handle-IsAgreed stops p i = shutdown-IsAgreed p i

  boot-IsAgreed : (cfg : Config) (f : Found) → IsAgreed (boot a cfg f)
  unfolding boot
  boot-IsAgreed cfg f = if-both (Shares _) cfg.gateway_enable _ _ refl tt

run-IsAgreed :
    {E : Type 0} (events : List (Around E × Event)) (p : Process E)
    → IsAgreed p
    → IsAgreed (run events p)
unfolding run
run-IsAgreed [] p i = i
run-IsAgreed ((a, e) ∷ more) p i = run-IsAgreed more (handle a e p) (handle-IsAgreed a e p i)

-- After the start and after any sequence of switches, restarts, reloads, pushes of the engine and shutdowns,
-- each with its own behaviour of the system, the gateway has the engine that the path decider reads.
pub boot-run-IsAgreed :
    {E : Type 0} (a : Around E) (cfg : Config) (f : Found) (events : List (Around E × Event))
    → IsAgreed (run events (boot a cfg f))
boot-run-IsAgreed a cfg f events = run-IsAgreed events (boot a cfg f) (boot-IsAgreed a cfg f)
