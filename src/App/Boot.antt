-- ===== src/App/Boot.antt =====
-- cmd/outline-gate/main.go: `run` up to the gateway, from the configuration and what the disk and the system
-- hold. The options of the clients that only set intervals are left out.
use outline_gate.Prelude.{Bool, true, false, [], ◌∷◌, Option, some, none, pos, if◌then◌else◌}
use outline_gate.Go.Text.{Text, is_empty, trim_space}
use outline_gate.Go.Ip.{is_nil, IpAddr}
use outline_gate.Go.IpParse.{parse_ip}
use outline_gate.Go.HostPort.{split_host_port}
use outline_gate.Config.Types.{Config}
use outline_gate.Connlog.Methods.{new}
use outline_gate.Bypass.Disk.{Disk}
use outline_gate.Bypass.Manager.{Manager, new_manager, effective_nets}
use outline_gate.Gateway.Control.{System, new_gateway}
use outline_gate.Amnezia.Conf
use outline_gate.Amnezia.Client
use outline_gate.Outline.{new_client, connect}
use outline_gate.App.{Process, Around, settings, make_mux, build_engine, load_bypass, load_block}

-- What the process finds: the file of the AmneziaWG configuration, if it can be read and parsed, the last
-- expanded key, the disks, and the state of nft and of the network.
pub record Found : Type 0 where
  pub amnezia : Option Conf.Config
  pub last_expanded : Text
  pub bypass_disk : Disk
  pub block_disk : Disk
  pub backend_disk : Disk
  pub key_disk : Disk
  pub system : System
  pub machine : Client.Machine

abbrev pub new_awg : Config → Conf.Config → Client.Client
new_awg cfg conf = record {
  iface_name = cfg.amnezia_iface;
  wg_path = cfg.amnezia_wg_bin;
  conf = conf;
  probe = cfg.probe_addr;
  uapi_dir = [];
  daemon = false;
  ready = false;
  dialer = none;
  pinned = [];
}

abbrev awg_from : Config → Option Conf.Config → Option Client.Client
awg_from cfg none = none
awg_from cfg (some conf) = some (new_awg cfg conf)

unfoldable pub awg_of : Config → Option Conf.Config → Option Client.Client
awg_of cfg conf = if is_empty (trim_space cfg.amnezia_config_file) then none else awg_from cfg conf

module _ {E : Type 0} where
  -- The managers of the two lists, before they load.
  abbrev pub bypass_manager : Config → Manager E
  bypass_manager cfg =
      new_manager (record { path = cfg.bypass_rules_file; rules = [] }) cfg.bypass_cidrs true

  abbrev pub block_manager : Config → Manager E
  block_manager cfg = new_manager (record { path = cfg.block_rules_file; rules = [] }) [] false

  -- The components in front of the loads.
  abbrev pub connected : Around E → Config → Found → Process E
  connected a cfg f =
      let fresh =
        new_client a.network cfg.access_key cfg.probe_addr cfg.probe_fails f.last_expanded in
      let awg = awg_of cfg f.amnezia in
      record {
        cfg = cfg;
        outline = (connect a.network fresh).0;
        awg = awg;
        machine = f.machine;
        mux = make_mux awg;
        gw = none;
        system = f.system;
        engine = none;
        bypass = bypass_manager cfg;
        bypass_disk = f.bypass_disk;
        block = block_manager cfg;
        block_disk = f.block_disk;
        backend_disk = f.backend_disk;
        key_disk = f.key_disk;
        log = new (pos 500);
        allow = cfg.socks_allow_cidrs;
        cleared = fresh.server_ip ∷ [];
      }

  -- The engine and the gateway behind them.
  abbrev pub assembled : Config → Process E → Process E
  assembled cfg p =
      let e = build_engine (effective_nets p.bypass) p in
      record p {
        engine = some e;
        gw = if cfg.gateway_enable then some (new_gateway (settings cfg) (some e)) else none;
      }

  unfoldable pub boot : Around E → Config → Found → Process E
  unfolding load_bypass load_block awg_of
  boot a cfg f = assembled cfg (load_block a (load_bypass a (connected a cfg f)))

-- `isLoopbackListen`; `IP.IsLoopback` is 127.0.0.0/8 or ::1. The names that are equal to "localhost" up to
-- the case of their letters are an argument.
abbrev loopback_host : (Text → Bool) → (IpAddr → Bool) → Text → Bool
loopback_host is_localhost is_loopback host =
    let ip = parse_ip host in if is_nil ip then is_localhost host else is_loopback ip

abbrev loopback_of : (Text → Bool) → (IpAddr → Bool) → Option (Text × Text) → Bool
loopback_of is_localhost is_loopback none = false
loopback_of is_localhost is_loopback (some w) = loopback_host is_localhost is_loopback w.0

unfoldable pub is_loopback_listen : (Text → Bool) → (IpAddr → Bool) → Text → Bool
is_loopback_listen is_localhost is_loopback addr =
    loopback_of is_localhost is_loopback (split_host_port addr)
