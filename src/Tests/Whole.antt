-- ===== src/Tests/Whole.antt =====
-- cmd/outline-gate/main.go: a process with a gateway and a client of AmneziaWG.
use outline_gate.Prelude.{◌≡◌, refl, inl, true, false, List, [], ◌∷◌, some, none, pos}
use outline_gate.Prelude.Result.{ok}
use outline_gate.Go.Text.{Text, codes, trim_space, text_eq, split}
use outline_gate.Go.Unicode.{ascii}
use outline_gate.Config.Types.{Config, defaults, route_config}
use outline_gate.Routing.{new_with_bypass}
use outline_gate.Connlog.Methods
use outline_gate.Bypass.Disk.{Disk, Faults}
use outline_gate.Bypass.Manager.{
  set_static, load_manager, effective_nets, refresh, same_nets, resolve_all, spend_nets, add_nets,
}
use outline_gate.Bypass.Store.{load}
use outline_gate.Bypass.RulesFile.{parse_rules_file, scan_lines, scan_line}
use outline_gate.Bypass.Rule.{parse_rule, parse_trimmed}
use outline_gate.Bypass.Matcher.{domains_to_resolve, static_nets}
use outline_gate.Go.IpParse.{parse_ip}
use outline_gate.Gateway.Control.{Gateway, new_gateway}
use outline_gate.Outline.{Network, new_client}
use outline_gate.Tunnel.{backend_of, backend_amnezia}
use outline_gate.App.{Process, Around, tunnel_bypass_ips, settings, make_mux}
use outline_gate.App.Boot.{Found, boot, new_awg, bypass_manager, block_manager}
use outline_gate.App.Actions.{Event, switches, restarts, reloads, run, switch_backend, reload}
use outline_gate.App.Agrees.{IsAgreed, boot-run-IsAgreed}
use outline_gate.App.Coupled.{IsCoupled, IsLinked, switch_backend-IsCoupled}
use outline_gate.App.Reload.{reload-engine}
use outline_gate.App.Serve.{Texts, ui_server}
use outline_gate.App.Serve.Kept.{serve-IsAgreed}
use outline_gate.Web.{not_found}
use outline_gate.Web.Mount.{mount, serve}
use outline_gate.Tests.Daemon.{conf, host}
use outline_gate.Tests.Pages.{request, quoted, find_pattern}

abbrev working : Faults
working = record {
  mkdir_fails = false;
  open_fails = false;
  write_fails = false;
  written = 0;
  sync_fails = false;
  close_fails = false;
  rename_fails = false;
  read_fails = false;
}

abbrev cfg : Config
cfg = record defaults {
  access_key = codes "ss://a@b:1";
  gateway_enable = true;
  amnezia_config_file = codes "/config/awg.conf";
  backend_persist_file = codes "/config/backend";
}

abbrev network : Network
network = record {
  expand = λ key. some key;
  builds = λ key. true;
  parse_url = λ key. some (record { scheme = codes "ss"; hostname = codes "b" });
  lookup = λ h. some ((192 ∷ 0 ∷ 2 ∷ 1 ∷ []) ∷ []);
  slot = none;
  dial = λ key address. none;
}

abbrev around : Around Text
around = record {
  unicode = ascii;
  print = λ c. false;
  nft = record {
    nft = λ runs script. none;
    look_path = some (codes "/usr/sbin/nft");
    is_file = λ p. false;
    forward_writable = true;
  };
  wg = host;
  network = network;
  lookup = λ name. ok [];
  bypass_faults = working;
  block_faults = working;
  backend_faults = working;
  key_faults = working;
  fresh = some cfg;
}

abbrev no_file : Disk
no_file = record { file = none; temp = none; past = [] }

-- The rules file, edited while the process runs.
abbrev edited : Disk
edited = record { file = some (codes "203.0.113.9"); temp = none; past = [] }

abbrev found : Found
found = record {
  amnezia = some conf;
  last_expanded = [];
  bypass_disk = no_file;
  block_disk = no_file;
  backend_disk = no_file;
  key_disk = no_file;
  system = record { runs = []; ip_forward = some (codes "0\n") };
  machine = record { now = 0; done = [] };
}

abbrev events : List (Around Text × Event)
events = (around, switches (codes "awg")) ∷ (around, reloads) ∷ (around, restarts) ∷ []

boot-run-IsAgreed_example : IsAgreed (run events (boot around cfg found))
boot-run-IsAgreed_example = boot-run-IsAgreed around cfg found events

-- The process with parts that are computed by hand.
abbrev gateway : Gateway
gateway = new_gateway (settings cfg) none

abbrev idle_process : Process Text
idle_process = record {
  cfg = cfg;
  outline = new_client network (codes "ss://a@b:1") [] (pos 2) [];
  awg = some (new_awg cfg conf);
  machine = record { now = 0; done = [] };
  mux = make_mux (some (new_awg cfg conf));
  gw = some gateway;
  system = record { runs = []; ip_forward = some (codes "0\n") };
  engine = none;
  bypass = bypass_manager cfg;
  bypass_disk = edited;
  block = block_manager cfg;
  block_disk = no_file;
  backend_disk = no_file;
  key_disk = no_file;
  log = Methods.new (pos 500);
  allow = [];
  cleared = [];
}

idle_backend : text_eq (backend_of idle_process.mux) backend_amnezia ≡ false
unfolding make_mux
idle_backend = refl

idle_link : IsLinked idle_process
unfolding make_mux
idle_link = refl

switch_backend-IsCoupled_example :
    IsCoupled (switch_backend around (codes "awg") idle_process).0
    × IsLinked (switch_backend around (codes "awg") idle_process).0
switch_backend-IsCoupled_example =
    switch_backend-IsCoupled around (codes "awg") idle_process (inl idle_backend) idle_link

-- The rule of the file is loaded, and the manager does not call back.
quiet_load :
    (load_manager ascii working
      (λ name. ok [])
      (set_static cfg.bypass_cidrs idle_process.bypass)
      edited).0.notices
    ≡ (set_static cfg.bypass_cidrs idle_process.bypass).notices
unfolding load_manager load parse_rules_file scan_lines split scan_line trim_space parse_rule
    parse_trimmed parse_ip refresh same_nets resolve_all domains_to_resolve spend_nets
quiet_load = refl

reload-engine_example :
    (reload around idle_process).engine
    ≡ some (
        new_with_bypass
          (route_config cfg)
          (effective_nets (record idle_process.bypass { static = cfg.bypass_cidrs }))
          (tunnel_bypass_ips idle_process.outline idle_process.awg))
reload-engine_example = reload-engine around cfg gateway idle_process refl refl refl quiet_load

rule_missing : effective_nets (record idle_process.bypass { static = cfg.bypass_cidrs }) ≡ []
unfolding effective_nets add_nets static_nets
rule_missing = refl

-- A request that switches the backend, on the process above.
abbrev texts : Texts Text
texts = record {
  lookup = λ e. e;
  manager = λ e. codes "rules";
  outline = λ e. codes "outline";
  persist = λ e. codes "persist";
  action = λ e. codes "action";
}

serve-IsAgreed_example :
    IsAgreed
      (serve find_pattern
        (mount
          (ui_server around texts 0 (codes "v1") none (λ r. not_found) idle_process)
          quoted
          ascii)
        (request (codes "PUT") (codes "/api/v1/tunnel") [])
        idle_process).0
serve-IsAgreed_example =
    serve-IsAgreed around texts 0 (codes "v1") none (λ r. not_found) idle_process quoted
      find_pattern (request (codes "PUT") (codes "/api/v1/tunnel") []) idle_process refl
