-- ===== src/Config/Types.antt =====
-- internal/config/config.go: the configuration, its constants and its defaults. A `time.Duration` is a
-- number of nanoseconds.
use outline_gate.Prelude.{ℕ, ◌*◌, Bool, false, List, [], ℤ, pos}
use outline_gate.Go.Text.{Text, codes}
use outline_gate.Go.Ip.{IpNet}
use outline_gate.Config.{RouteConfig, mode_exclude, direct_allow}

abbrev pub default_ui_token : Text
default_ui_token = codes "Passw0rd"

-- `DNSMode`, a string in the source.
abbrev pub dns_system : Text
dns_system = codes "system"

abbrev pub dns_tunnel : Text
dns_tunnel = codes "tunnel"

abbrev pub dns_static : Text
dns_static = codes "static"

abbrev pub dns_doh : Text
dns_doh = codes "doh"

pub record Config : Type 0 where
  pub access_key : Text
  pub routing_mode : Text
  pub bypass_cidrs : List IpNet
  pub tunnel_cidrs : List IpNet
  pub direct_policy : Text
  pub lan_interface : Text
  pub gateway_enable : Bool
  pub gateway_output_enable : Bool
  pub socks_listen : Text
  pub health_listen : Text
  pub log_level : Text
  pub log_format : Text
  pub reconnect_base : ℤ
  pub reconnect_max : ℤ
  pub dns_mode : Text
  pub dns_servers : List Text
  pub dns_listen : List Text
  pub doh_url : Text
  pub doh_addr : Text
  pub transproxy_listen : Text
  pub transproxy_port : ℤ
  pub ui_enable : Bool
  pub ui_token : Text
  pub bypass_rules_file : Text
  pub block_rules_file : Text
  pub bypass_dns_refresh : ℤ
  pub access_key_persist_file : Text
  pub socks_allow_cidrs : List IpNet
  pub metrics_enable : Bool
  pub ssconf_refresh : ℤ
  pub probe_addr : Text
  pub probe_interval : ℤ
  pub probe_timeout : ℤ
  pub probe_fails : ℤ
  pub tunnel_backend : Text
  pub backend_persist_file : Text
  pub amnezia_config_file : Text
  pub amnezia_vpn_uri : Text
  pub amnezia_vpn_uri_file : Text
  pub amnezia_iface : Text
  pub amnezia_wg_bin : Text

-- What the routing engine reads.
abbrev pub route_config : Config → RouteConfig
route_config c = record {
  routing_mode = c.routing_mode;
  bypass_cidrs = c.bypass_cidrs;
  tunnel_cidrs = c.tunnel_cidrs;
  direct_policy = c.direct_policy;
}

abbrev pub second : ℕ
second = 1000000000

-- The literal at the start of `LoadFromEnv`; a field that it does not name is zero.
abbrev pub defaults : Config
defaults = record {
  access_key = [];
  routing_mode = mode_exclude;
  bypass_cidrs = [];
  tunnel_cidrs = [];
  direct_policy = direct_allow;
  lan_interface = [];
  gateway_enable = false;
  gateway_output_enable = false;
  socks_listen = codes "0.0.0.0:1080";
  health_listen = codes "0.0.0.0:8080";
  log_level = codes "info";
  log_format = codes "text";
  reconnect_base = pos second;
  reconnect_max = pos (60 * second);
  dns_mode = dns_system;
  dns_servers = [];
  dns_listen = [];
  doh_url = [];
  doh_addr = [];
  transproxy_listen = codes "127.0.0.1:12345";
  transproxy_port = pos 12345;
  ui_enable = false;
  ui_token = [];
  bypass_rules_file = codes "/config/bypass.rules.txt";
  block_rules_file = codes "/config/block.rules.txt";
  bypass_dns_refresh = pos (60 * second);
  access_key_persist_file = codes "/config/outline_key.runtime.txt";
  socks_allow_cidrs = [];
  metrics_enable = false;
  ssconf_refresh = pos (120 * second);
  probe_addr = codes "1.1.1.1:443";
  probe_interval = pos (30 * second);
  probe_timeout = pos (8 * second);
  probe_fails = pos 2;
  tunnel_backend = codes "outline";
  backend_persist_file = codes "/config/tunnel_backend.txt";
  amnezia_config_file = codes "/config/amnezia.awg.conf";
  amnezia_vpn_uri = [];
  amnezia_vpn_uri_file = codes "/config/amnezia.vpnuri.txt";
  amnezia_iface = codes "og-awg0";
  amnezia_wg_bin = [];
}
