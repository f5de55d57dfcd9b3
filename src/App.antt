-- ===== src/App.antt =====
-- cmd/outline-gate/main.go: the components in one process. `Process` holds the variables of `run`; what the
-- components ask of the system is `Around`. The mutex `mu` makes each access to `cfg`, `gw` and `engine`
-- atomic, and the callbacks run inside the call that fires them. The log is left out.
pub mod Boot
pub mod Actions
pub mod Agrees
pub mod Coupled
pub mod Reload
pub mod Serve
use outline_gate.Prelude.{
  ℕ, ◌*◌, ◌-◌, Bool, true, false, List, [], ◌∷◌, ◌++◌, Option, some, none, if◌then◌else◌, length,
  drop, ltb, ℤ, pos_part, ◌==◌,
}
use outline_gate.Prelude.Result.{Result, ok, err}
use outline_gate.Go.Text.{Text, codes, is_empty, trim_space}
use outline_gate.Go.Unicode.{Unicode}
use outline_gate.Go.Ip.{IpAddr, IpNet, is_nil}
use outline_gate.Config.Types.{Config, route_config}
use outline_gate.Routing.{Engine, new_with_bypass}
use outline_gate.Bypass.Disk.{Disk, Faults}
use outline_gate.Bypass.Manager.{Manager, Lookup, Done, new_manager, load_manager, effective_nets}
use outline_gate.Connlog.Types.{Store}
use outline_gate.Gateway.Script.{Settings}
use outline_gate.Gateway.Control.{Gateway, System, new_gateway, update_engine}
use outline_gate.Gateway.Control
use outline_gate.Amnezia.Conf
use outline_gate.Amnezia.Client
use outline_gate.Outline
use outline_gate.Tunnel.{Mux, new_mux}

-- The two dialers of the multiplexer, and what its callbacks read.
pub data Transport : Type 0 where
  by_outline by_amnezia : Transport

abbrev pub Peers : Type 0
Peers = Outline.Client × Option Client.Client

pub record Process (E : Type 0) : Type 0 where
  pub cfg : Config
  pub outline : Outline.Client
  pub awg : Option Client.Client
  pub machine : Client.Machine
  pub mux : Mux Transport Peers
  pub gw : Option Gateway
  pub system : System
  pub engine : Option Engine
  pub bypass : Manager E
  pub bypass_disk : Disk
  pub block : Manager E
  pub block_disk : Disk
  pub backend_disk : Disk
  pub key_disk : Disk
  pub log : Store
  pub allow : List IpNet
  -- The addresses given to `ClearPath`, the last one first.
  pub cleared : List IpAddr

-- The system and the libraries during one call; `fresh` is what `config.Load` gives.
pub record Around (E : Type 0) : Type 0 where
  pub unicode : Unicode
  pub print : ℕ → Bool
  pub nft : Control.Host
  pub wg : Client.Host
  pub network : Outline.Network
  pub lookup : Lookup E
  pub bypass_faults : Faults
  pub block_faults : Faults
  pub backend_faults : Faults
  pub key_faults : Faults
  pub fresh : Option Config

-- `serverIPsFrom` and `tunnelBypassIPs`.
abbrev pub listed : IpAddr → List IpAddr
listed ip = if is_nil ip then [] else ip ∷ []

abbrev pub server_ips_from : Outline.Client → List IpAddr
server_ips_from c = listed c.server_ip

abbrev endpoint_ips : Option Client.Client → List IpAddr
endpoint_ips none = []
endpoint_ips (some c) = listed (Conf.endpoint_ip c.conf)

unfoldable pub tunnel_bypass_ips : Outline.Client → Option Client.Client → List IpAddr
tunnel_bypass_ips c awg = server_ips_from c ++ endpoint_ips awg

-- What the gateway reads of the configuration.
abbrev pub settings : Config → Settings
settings c = record {
  routing_mode = c.routing_mode;
  transproxy_port = c.transproxy_port;
  output_enable = c.gateway_output_enable;
  amnezia_iface = c.amnezia_iface;
  lan_interface = c.lan_interface;
}

-- The multiplexer of `run`.
abbrev pub amnezia_transport : Option Client.Client → Option Transport
amnezia_transport none = none
amnezia_transport (some c) = some by_amnezia

abbrev pub peer_ready : Peers → Bool
peer_ready (o, none) = false
peer_ready (o, some c) = c.ready

abbrev pub peer_ip : Peers → IpAddr
peer_ip (o, none) = []
peer_ip (o, some c) = Conf.endpoint_ip c.conf

unfoldable pub make_mux : Option Client.Client → Mux Transport Peers
make_mux awg =
    new_mux (some by_outline) (amnezia_transport awg) (some (λ (w : Peers). w.0.ready))
      (some peer_ready) (some (λ (w : Peers). w.0.server_ip)) (some peer_ip)

module _ {E : Type 0} where
  -- `ClearPath` on an address.
  abbrev pub clear_path : IpAddr → Process E → Process E
  clear_path ip p = record p { cleared = ip ∷ p.cleared }

  abbrev pub build_engine : List IpNet → Process E → Engine
  build_engine nets p =
      new_with_bypass (route_config p.cfg) nets (tunnel_bypass_ips p.outline p.awg)

  abbrev pub push_to : Around E → Engine → Option Gateway → System → Option Gateway × System
  push_to a e none s = (none, s)
  push_to a e (some g) s =
      let w = update_engine a.print a.nft (some e) (g, s) in (some w.0.0, w.0.1)

  abbrev pub with_engine : Around E → Engine → Process E → Process E
  with_engine a e p =
      let w = push_to a e p.gw p.system in record p { engine = some e; gw = w.0; system = w.1 }

  -- `rebuildPush`, on the nets that `EffectiveBypassNets` gives.
  abbrev pub rebuild_with : Around E → List IpNet → Process E → Process E
  rebuild_with a nets p = with_engine a (build_engine nets p) p

  unfoldable pub rebuild_push : Around E → Process E → Process E
  rebuild_push a p = rebuild_with a (effective_nets p.bypass) p

  -- A call of the manager of the bypass rules, with the calls of `OnChange` that it made.
  unfoldable pub fire_all : Around E → List (List IpNet) → Process E → Process E
  fire_all a [] p = p
  fire_all a (nets ∷ more) p = fire_all a more (rebuild_with a nets p)

  unfoldable pub take_bypass : Around E → Manager E → Disk → Process E → Process E
  unfolding fire_all
  take_bypass a m d p =
      fire_all a (drop (length p.bypass.notices) m.notices)
        (record p { bypass = m; bypass_disk = d })

  -- The two calls of `Load`, whose errors are only logged.
  unfoldable pub load_bypass : Around E → Process E → Process E
  load_bypass a p =
      let w = load_manager a.unicode a.bypass_faults a.lookup p.bypass p.bypass_disk in
      take_bypass a w.0 w.1 p

  unfoldable pub load_block : Around E → Process E → Process E
  load_block a p =
      let w = load_manager a.unicode a.block_faults a.lookup p.block p.block_disk in
      record p { block = w.0; block_disk = w.1 }

  abbrev pub peers : Process E → Peers
  peers p = (p.outline, p.awg)
