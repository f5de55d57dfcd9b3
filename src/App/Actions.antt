-- ===== src/App/Actions.antt =====
-- cmd/outline-gate/main.go: what the process does on a request of the web interface or on a signal: the
-- switch of the backend, the restart of the services, the reload of the configuration, the loop that applies
-- the gateway's rules, and the shutdown.
use outline_gate.Prelude.{
  ℕ, ◌*◌, Bool, true, false, List, [], ◌∷◌, ◌++◌, Option, some, none, ltb, ◌==◌, if◌then◌else◌, ℤ,
  pos_part,
}
use outline_gate.Prelude.Result.{Result, ok, err}
use outline_gate.Go.Text.{Text, codes, text_eq}
use outline_gate.Config.Types.{Config, second}
use outline_gate.Config.Backend.{persist_backend}
use outline_gate.Bypass.Manager.{set_static, effective_nets}
use outline_gate.Gateway.Control.{Gateway, System, State, new_gateway, apply, flush}
use outline_gate.Gateway.Control
use outline_gate.Amnezia.Conf
use outline_gate.Amnezia.Client
use outline_gate.Amnezia.Client.Up.{up}
use outline_gate.Outline
use outline_gate.Tunnel.{
  Mux, MuxError, normalize, set_backend, backend_of, backend_outline, backend_amnezia, server_ip,
}
use outline_gate.App.{
  Process, Around, Transport, Peers, peers, settings, build_engine, rebuild_push, clear_path,
  take_bypass, load_bypass, load_block,
}

-- The errors of the switch and of the restart.
pub data ActionError : Type 0 where
  no_config : ActionError
  bad_up : Client.ClientError → ActionError
  bad_switch : MuxError → ActionError
  no_backend : Text → ActionError
  bad_reconnect : Outline.ClientError → ActionError

module _ {E : Type 0} (a : Around E) where
  -- `SetBackend` of the multiplexer; its error is ignored by some callers.
  abbrev pub mux_set :
      Process E → Result MuxError (Mux Transport Peers) → Process E × Option ActionError
  mux_set p (err e) = (p, some (bad_switch e))
  mux_set p (ok m) = (record p { mux = m }, none)

  abbrev pub set_mux : Text → Process E → Process E × Option ActionError
  set_mux name p = mux_set p (set_backend a.unicode name p.mux)

  -- `awg.Down`.
  abbrev pub down_if : Option Client.Client → Process E → Process E
  down_if none p = p
  down_if (some c) p =
      let w = (Client.down a.wg (c, p.machine)).0 in record p { awg = some w.0; machine = w.1 }

  -- The end of a switch that worked: the choice is kept, the engine is built, the paths are cleared.
  abbrev pub settle : Process E → Process E
  settle p =
      let w =
        persist_backend a.unicode a.backend_faults p.cfg.backend_persist_file (backend_of p.mux)
          p.backend_disk in
      let q = rebuild_push a (record p { backend_disk = w.0 }) in
      clear_path (server_ip q.mux (peers q)) q

  abbrev pub after_set : Process E × Option ActionError → Process E × Option ActionError
  after_set (p, some e) = (down_if p.awg p, some e)
  after_set (p, none) = (settle p, none)

  abbrev pub with_awg : Process E → Client.State → Process E
  with_awg p (c, m) = record p { awg = some c; machine = m }

  abbrev pub after_up : Process E → Client.Outcome → Process E × Option ActionError
  after_up p (st, some e) = ((set_mux backend_outline (with_awg p st)).0, some (bad_up e))
  after_up p (st, none) = after_set (set_mux backend_amnezia (with_awg p st))

  abbrev pub to_amnezia : Option Client.Client → Process E → Process E × Option ActionError
  to_amnezia none p = (p, some no_config)
  to_amnezia (some c) p = after_up p (up a.wg (c, p.machine))

  abbrev pub to_outline : Process E → Process E × Option ActionError
  to_outline p = (settle (down_if p.awg (set_mux backend_outline p).0), none)

  -- `switchBackend`.
  unfoldable pub switch_backend : Text → Process E → Process E × Option ActionError
  unfolding rebuild_push
  switch_backend text p =
      let name = normalize a.unicode text in
      if text_eq name backend_amnezia
      then to_amnezia p.awg p
      else if text_eq name backend_outline
      then to_outline p
      else (p, some (no_backend name))

  -- `RestartServices`. The last step applies the rules again.
  abbrev pub reapplied : Process E → State × Option Text → Process E × Result ActionError Text
  reapplied p ((g, s), none) =
      (record p { gw = some g; system = s }, ok (codes "службы перезапущены"))
  reapplied p ((g, s), some e) =
      (record p { gw = some g; system = s }, ok (codes "туннель поднят, nft не применился: " ++ e))

  abbrev pub reapply : Option Gateway → Process E → Process E × Result ActionError Text
  reapply none p = (p, ok (codes "службы перезапущены"))
  reapply (some g) p = reapplied p (apply a.print a.nft (g, p.system))

  abbrev pub after_key :
      Outline.ClientError → Process E → Outline.Outcome → Process E × Result ActionError Text
  after_key e p (c, none) = reapply p.gw (record p { outline = c })
  after_key e p (c, some _) = (record p { outline = c }, err (bad_reconnect e))

  -- A reconnect that failed is tried again with the key of the configuration, if it is another one.
  abbrev pub with_fresh :
      Option Config → Outline.ClientError → Process E → Process E × Result ActionError Text
  with_fresh none e p = (p, err (bad_reconnect e))
  with_fresh (some c) e p =
      if text_eq c.access_key p.outline.access_key
      then (p, err (bad_reconnect e))
      else after_key e p (Outline.set_access_key a.network c.access_key p.outline)

  abbrev pub after_reconnect : Process E → Outline.Outcome → Process E × Result ActionError Text
  after_reconnect p (c, none) = reapply p.gw (record p { outline = c })
  after_reconnect p (c, some e) = with_fresh a.fresh e (record p { outline = c })

  abbrev pub restart_outline : Process E → Process E × Result ActionError Text
  restart_outline p =
      after_reconnect (clear_path p.outline.server_ip p) (Outline.reconnect a.network p.outline)

  abbrev pub restart_up : Process E → Client.Outcome → Process E × Result ActionError Text
  restart_up p (st, some e) = (with_awg p st, err (bad_up e))
  restart_up p (st, none) = (rebuild_push a (with_awg p st), ok (codes "AmneziaWG переподключён"))

  abbrev pub restart_amnezia :
      Option Client.Client → Process E → Process E × Result ActionError Text
  restart_amnezia none p = restart_outline p
  restart_amnezia (some c) p =
      restart_up (clear_path (Conf.endpoint_ip c.conf) p) (up a.wg (c, p.machine))

  unfoldable pub restart_services : Process E → Process E × Result ActionError Text
  restart_services p =
      if text_eq (backend_of p.mux) backend_amnezia
      then restart_amnezia p.awg p
      else restart_outline p

  -- The reload on SIGHUP, with a configuration that was loaded: the static networks and the two loads.
  abbrev pub reload_rules : Config → Process E → Process E
  reload_rules cfg p =
      load_block a
        (load_bypass a (take_bypass a (set_static cfg.bypass_cidrs p.bypass) p.bypass_disk p))

  abbrev pub fresh_gateway : Config → Process E → Process E
  fresh_gateway cfg p =
      let e = build_engine (effective_nets p.bypass) p in
      record p { engine = some e; gw = some (new_gateway (settings cfg) (some e)) }

  abbrev pub apply_if : Bool → Option Gateway → Process E → Process E
  apply_if false g p = p
  apply_if true none p = p
  apply_if true (some g) p =
      let w = (apply a.print a.nft (g, p.system)).0 in record p { gw = some w.0; system = w.1 }

  abbrev pub reload_with : Config → Option Gateway → Process E → Process E
  reload_with cfg none p = reload_rules cfg p
  reload_with cfg (some g) p =
      let q = reload_rules cfg (fresh_gateway cfg p) in apply_if g.active q.gw q

  abbrev pub reload_config : Option Config → Process E → Process E
  reload_config none p = p
  reload_config (some cfg) p =
      reload_with cfg p.gw (record p { cfg = cfg; allow = cfg.socks_allow_cidrs })

  unfoldable pub reload : Process E → Process E
  unfolding take_bypass load_bypass load_block
  reload p = reload_config a.fresh p

  -- The shutdown: the rules are removed, and the tunnel goes down.
  abbrev pub flushed : Option Gateway → Process E → Process E
  flushed none p = p
  flushed (some g) p =
      let w = (flush a.unicode a.nft (g, p.system)).0 in record p { gw = some w.0; system = w.1 }

  unfoldable pub shutdown : Process E → Process E
  shutdown p = let q = flushed p.gw p in down_if q.awg q

-- The delays of the loop that applies the rules.
abbrev base_delay : ℤ → ℕ
base_delay base = if pos_part base == 0 then second else pos_part base

abbrev longest_delay : ℤ → ℕ → ℕ
longest_delay longest base = if ltb (pos_part longest) base then 60 * second else pos_part longest

abbrev next_delay : ℕ → ℕ → ℕ
next_delay longest delay = if ltb longest (delay * 2) then longest else delay * 2

-- The loop on one gateway, where the system may be another at each attempt; the list ends when the process does. It gives
-- the delays that were waited for, too.
abbrev tried : ℕ → State × Option Text → (State → State × List ℕ) → State × List ℕ
tried delay (st, none) more = (st, [])
tried delay (st, some e) more = let rest = more st in (rest.0, delay ∷ rest.1)

unfoldable pub apply_loop : (ℕ → Bool) → ℕ → List Control.Host → ℕ → State → State × List ℕ
apply_loop print longest [] delay st = (st, [])
apply_loop print longest (h ∷ hs) delay st =
    tried delay (apply print h st)
      (λ (st' : State). apply_loop print longest hs (next_delay longest delay) st')

unfoldable pub apply_gateway : (ℕ → Bool) → ℤ → ℤ → List Control.Host → State → State × List ℕ
unfolding apply_loop
apply_gateway print base longest hosts st =
    apply_loop print (longest_delay longest (base_delay base)) hosts (base_delay base) st

-- The calls that change the process.
pub data Event : Type 0 where
  switches : Text → Event
  restarts reloads pushes stops : Event

abbrev pub handle : {E : Type 0} → Around E → Event → Process E → Process E
handle a (switches name) p = (switch_backend a name p).0
handle a restarts p = (restart_services a p).0
handle a reloads p = reload a p
handle a pushes p = rebuild_push a p
handle a stops p = shutdown a p

-- A run: each event with the system as it is then.
unfoldable pub run : {E : Type 0} → List (Around E × Event) → Process E → Process E
run [] p = p
run ((a, e) ∷ more) p = run more (handle a e p)
