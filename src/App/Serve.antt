-- ===== src/App/Serve.antt =====
-- cmd/outline-gate/main.go and internal/webui/outline.go: the web interface on the process. How an error
-- prints is a parameter (`Texts`), and `now` is the time of the request.
pub mod Kept
use outline_gate.Prelude.{
  ℕ, Bool, true, false, List, [], ◌∷◌, ◌++◌, Option, some, none, ℤ, if◌then◌else◌,
}
use outline_gate.Prelude.Result.{Result, ok, err}
use outline_gate.Go.Text.{Text, codes, is_empty, trim_space}
use outline_gate.Go.Ip.{IpAddr, is_nil}
use outline_gate.Go.IpString.{ip_string}
use outline_gate.Config.AccessKey.{PersistError, persist_access_key}
use outline_gate.Config.Backend.{redact_access_key}
use outline_gate.Bypass.Rule.{Rule}
use outline_gate.Bypass.Disk.{Disk}
use outline_gate.Bypass.Manager.{
  Manager, ManagerError, Done, add_rule, remove_rule, replace_rules, refresh, effective_nets,
}
use outline_gate.Connlog.Types.{Store}
use outline_gate.Connlog.Methods.{snapshot, stats, len, capacity_of, no_counts}
use outline_gate.Amnezia.Conf.{endpoint}
use outline_gate.Amnezia.Client
use outline_gate.Outline
use outline_gate.Tunnel.{ready, backend_of}
use outline_gate.Web.{
  Request, Response, OutlineStatus, AmneziaStatus, TunnelStatus, RuntimeStatus, RulesApi,
  OutlineApi, TunnelApi, LogApi, Server,
}
use outline_gate.App.{Process, Around, peers, rebuild_push, take_bypass}
use outline_gate.App.Actions.{ActionError, switch_backend, restart_services, shutdown}

pub record Texts (E : Type 0) : Type 0 where
  pub lookup : E → Text
  pub manager : ManagerError E → Text
  pub outline : Outline.ClientError → Text
  pub persist : PersistError → Text
  pub action : ActionError → Text

abbrev pub shown_ip : IpAddr → Text
shown_ip ip = if is_nil ip then [] else ip_string ip

abbrev as_text : {A B : Type 0} → (A → Text) → Result A B → Result Text B
as_text f (ok b) = ok b
as_text f (err e) = err (f e)

abbrev error_text : {A : Type 0} → (A → Text) → Result A (Unit {0}) → Option Text
error_text f (ok b) = none
error_text f (err e) = some (f e)

abbrev option_text : {A : Type 0} → (A → Text) → Option A → Option Text
option_text f none = none
option_text f (some a) = some (f a)

abbrev or_empty : Option Text → Text
or_empty none = []
or_empty (some t) = t

module _ {E : Type 0} (a : Around E) (t : Texts E) where
  -- The managers as the interface calls them.
  abbrev pub to_bypass : {A : Type 0} → Process E → Done E A → Process E
  to_bypass p w = take_bypass a w.0 w.1 p

  abbrev pub to_block : {A : Type 0} → Process E → Done E A → Process E
  to_block p w = record p { block = w.0; block_disk = w.1 }

  abbrev pub bypass_api : RulesApi (Process E)
  bypass_api = record {
    rules = λ p. p.bypass.store.rules;
    add_rule = λ raw p.
        let w = add_rule a.unicode a.bypass_faults a.lookup raw p.bypass p.bypass_disk in
        (to_bypass p w, as_text t.manager w.2);
    remove_rule = λ raw p.
        let w = remove_rule a.unicode a.bypass_faults a.lookup raw p.bypass p.bypass_disk in
        (to_bypass p w, as_text t.manager w.2);
    set_rules = λ raws p.
        let w = replace_rules a.unicode a.bypass_faults a.lookup raws p.bypass p.bypass_disk in
        (to_bypass p w, error_text t.manager w.2);
    effective = λ p. effective_nets p.bypass;
    resolved = λ p. p.bypass.resolved;
    last_error = λ p. or_empty (option_text t.lookup p.bypass.last_error);
    refresh = λ p.
        let w = refresh a.lookup p.bypass in
        (take_bypass a w.0 p.bypass_disk p, option_text t.lookup w.1);
  }

  abbrev pub block_api : RulesApi (Process E)
  block_api = record {
    rules = λ p. p.block.store.rules;
    add_rule = λ raw p.
        let w = add_rule a.unicode a.block_faults a.lookup raw p.block p.block_disk in
        (to_block p w, as_text t.manager w.2);
    remove_rule = λ raw p.
        let w = remove_rule a.unicode a.block_faults a.lookup raw p.block p.block_disk in
        (to_block p w, as_text t.manager w.2);
    set_rules = λ raws p.
        let w = replace_rules a.unicode a.block_faults a.lookup raws p.block p.block_disk in
        (to_block p w, error_text t.manager w.2);
    effective = λ p. effective_nets p.block;
    resolved = λ p. p.block.resolved;
    last_error = λ p. or_empty (option_text t.lookup p.block.last_error);
    refresh = λ p.
        let w = refresh a.lookup p.block in (record p { block = w.0 }, option_text t.lookup w.1);
  }

  -- `ClientOutline`: its status, and the replacement of the key. Its path is the one of the start.
  abbrev pub outline_status : Text → Process E → OutlineStatus
  outline_status path p = record {
    access_key_redacted = redact_access_key p.outline.access_key;
    ready = p.outline.ready;
    server_ip = shown_ip p.outline.server_ip;
    persist_file = path;
  }

  abbrev no_status : OutlineStatus
  no_status = record { access_key_redacted = []; ready = false; server_ip = []; persist_file = [] }

  abbrev pub kept_key : Text → Text → Process E → Disk × Option PersistError
  kept_key path key p =
      if is_empty path
      then (p.key_disk, none)
      else persist_access_key a.unicode a.key_faults path key p.key_disk

  abbrev persist_warning : Option PersistError → Option Text
  persist_warning none = none
  persist_warning (some e) = some (codes "key applied but persist failed: " ++ t.persist e)

  abbrev pub after_key :
      Text → Text → Process E → Outline.Outcome → Process E × (OutlineStatus × Option Text)
  after_key path key p (c, some e) = (record p { outline = c }, (no_status, some (t.outline e)))
  after_key path key p (c, none) =
      let w = kept_key path key (record p { outline = c }) in
      let q = rebuild_push a (record p { outline = c; key_disk = w.0 }) in
      (q, (outline_status path q, persist_warning w.1))

  -- `ReplaceAccessKey`.
  unfoldable pub replace_access_key :
      Text → Text → Process E → Process E × (OutlineStatus × Option Text)
  replace_access_key path text p =
      after_key path (trim_space text) p
        (Outline.set_access_key a.network (trim_space text) p.outline)

  -- `tunnelStatus`.
  abbrev amnezia_status : Text → Option Client.Client → AmneziaStatus
  amnezia_status named none = record {
    configured = false;
    ready = false;
    endpoint = [];
    iface = named;
    label = codes "Швеция";
  }
  amnezia_status named (some c) = record {
    configured = true;
    ready = c.ready;
    endpoint = c.conf.text endpoint;
    iface = if is_empty c.iface_name then named else c.iface_name;
    label = codes "Швеция";
  }

  abbrev pub tunnel_status : Process E → TunnelStatus
  tunnel_status p = record {
    backend = backend_of p.mux;
    ready = ready p.mux (peers p);
    outline = outline_status p.cfg.access_key_persist_file p;
    amnezia = amnezia_status p.cfg.amnezia_iface p.awg;
    message = [];
  }

  abbrev pub switched : Process E × Option ActionError → Process E × (TunnelStatus × Option Text)
  switched (p, none) =
      (p, (record (tunnel_status p) { message = codes "активен " ++ backend_of p.mux }, none))
  switched (p, some e) = (p, (tunnel_status p, some (t.action e)))

  -- A read of the log. Where it panics, `net/http` ends the request: here, nothing is changed.
  abbrev pub read_log : {A : Type 0} → Process E → A → Option (Store × A) → Process E × A
  read_log p x none = (p, x)
  read_log p x (some (s, y)) = (record p { log = s }, y)

  -- The server that `run` mounts, with the configuration of the start. `cancel` is the shutdown that it leads to.
  unfoldable pub ui_server :
      ℕ → Text → Option (Option Text) → (Request → Response) → Process E → Server (Process E)
  unfolding replace_access_key
  ui_server now version index asset start = record {
    manager = some bypass_api;
    block = some block_api;
    outline = some (record {
      status = outline_status start.cfg.access_key_persist_file;
      replace = replace_access_key start.cfg.access_key_persist_file;
    });
    tunnel = some (record {
      status = tunnel_status;
      set_backend = λ name p. switched (switch_backend a name p);
    });
    conn_log = some (record {
      snapshot = λ n p. read_log p [] (snapshot now n p.log);
      stats = λ since p. read_log p no_counts (stats now since p.log);
      capacity = λ p. capacity_of p.log;
      len = λ p. read_log p 0 (len now p.log);
    });
    status = some (λ p. record {
      version = version;
      socks_listen = p.cfg.socks_listen;
      gateway_enable = p.cfg.gateway_enable;
      health_listen = p.cfg.health_listen;
    });
    version = version;
    token = start.cfg.ui_token;
    index = index;
    asset = asset;
    restart_services = some (λ p. let w = restart_services a p in (w.0, as_text t.action w.1));
    restart_container = some (shutdown a);
  }
