-- ===== src/Tests/Hooks.antt =====
-- internal/bypass/manager.go: a manager with one name and one net, whose resolver fails for other names.
use outline_gate.Prelude.{List, ◌≡◌, ◌↔◌, refl, true, false, [], ◌∷◌, none, some, if◌then◌else◌}
use outline_gate.Prelude.Result.{ok, err}
use outline_gate.Go.Text.{Text, codes, text_eq, trim_space}
use outline_gate.Go.Unicode.{ascii}
use outline_gate.Go.Ip.{IpAddr, host_net, to4, cidr_mask}
use outline_gate.Go.IpParse.{parse_ip}
use outline_gate.Go.IpString.{net_string, ip_string}
use outline_gate.Bypass.Rule.{Rule, domain, ip, parse_rule, parse_trimmed}
use outline_gate.Bypass.Matcher.{static_nets, domains_to_resolve}
use outline_gate.Bypass.Disk.{Disk, Faults}
use outline_gate.Bypass.Manager.{
  Manager, Lookup, new_manager, add_rule, install, rebuild_matcher, effective_nets, same_nets,
  resolve_all, count_nets, spend_nets, add_nets,
}
use outline_gate.Bypass.Manager.Quiet.{looked_up, add_rule-notices}
use outline_gate.Bypass.Manager.Effective.{Agrees, run-Agrees}
use outline_gate.Bypass.Manager.Current.{
  Call, refreshes, adds, sets_static, run, IsCurrent, run-IsCurrent,
}
use outline_gate.Bypass.Manager.Same.{tally, same_nets_iff}

abbrev near : IpAddr
near = 192 ∷ 0 ∷ 2 ∷ 7 ∷ []

-- The resolver knows one name; its errors are texts.
abbrev resolver : Lookup Text
resolver name =
    if text_eq name (codes "a.example") then ok (near ∷ []) else err (codes "no such host")

abbrev named : Rule
named = record { raw = codes "a.example"; kind = domain; net = none; host = codes "a.example" }

abbrev addressed : Rule
addressed = record {
  raw = codes "192.0.2.9";
  kind = ip;
  net = some (host_net (192 ∷ 0 ∷ 2 ∷ 9 ∷ []));
  host = [];
}

abbrev started : Manager Text
started = new_manager (record { path = []; rules = named ∷ [] }) [] true

abbrev settled : Manager Text
settled = record started { resolved = host_net near ∷ [] }

abbrev sound_disk : Faults
sound_disk = record {
  mkdir_fails = false;
  open_fails = false;
  write_fails = false;
  written = 0;
  sync_fails = false;
  close_fails = false;
  rename_fails = false;
  read_fails = false;
}

abbrev empty_disk : Disk
empty_disk = record { file = none; temp = none; past = [] }

addressed_parsed : parse_rule ascii (codes "192.0.2.9") ≡ ok addressed
unfolding parse_rule parse_trimmed trim_space parse_ip to4 ip_string
addressed_parsed = refl

resolved_again : same_nets settled.resolved (looked_up resolver settled) ≡ true
unfolding same_nets resolve_all domains_to_resolve to4 count_nets spend_nets net_string cidr_mask
resolved_again = refl

add_rule-notices_example :
    (add_rule ascii sound_disk resolver (codes "192.0.2.9") settled empty_disk).0.notices ≡ []
add_rule-notices_example =
    add_rule-notices resolver settled ascii sound_disk (codes "192.0.2.9") empty_disk
      addressed_parsed refl resolved_again

-- The effective nets have the new rule all the same, and each text once.
added_nets :
    effective_nets (record settled {
      store = record { path = []; rules = named ∷ addressed ∷ [] };
      static = host_net near ∷ [];
    })
    ≡ host_net near ∷ host_net (192 ∷ 0 ∷ 2 ∷ 9 ∷ []) ∷ []
unfolding effective_nets add_nets static_nets net_string to4 cidr_mask
added_nets = refl

abbrev calls : List (Call Text)
calls = refreshes resolver ∷ adds sound_disk resolver (codes "192.0.2.9") ∷ sets_static [] ∷ []

run-Agrees_example : Agrees (run ascii (started, empty_disk) calls).0 near
run-Agrees_example = run-Agrees ascii started empty_disk calls near refl refl

-- Two calls that overlap: the first reads its rules, the second adds a rule and rebuilds the matcher, and
-- then the first installs what it read.
abbrev extended : Manager Text
extended = record started { store = record { path = []; rules = named ∷ addressed ∷ [] } }

outdated : (install started.store.rules (rebuild_matcher extended)).matcher ≡ named ∷ []
outdated = refl

run-IsCurrent_example : IsCurrent (run ascii (started, empty_disk) calls).0
run-IsCurrent_example = run-IsCurrent ascii started empty_disk calls refl

same_nets_iff_example :
    (same_nets (host_net near ∷ []) (host_net near ∷ []) ≡ true)
    ↔ ((t : Text) → tally t (host_net near ∷ []) ≡ tally t (host_net near ∷ []))
same_nets_iff_example = same_nets_iff (host_net near ∷ []) (host_net near ∷ [])
