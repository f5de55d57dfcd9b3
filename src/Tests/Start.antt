-- ===== src/Tests/Start.antt =====
-- internal/config/config.go, internal/config/key.go: a start with a stored key, and what it loads.
use outline_gate.Prelude.{◌≡◌, refl, false, [], Option, some, none, if◌then◌else◌}
use outline_gate.Prelude.Result.{ok}
use outline_gate.Go.Text.{Text, codes, text_eq, trim_space, trim_left, split, join}
use outline_gate.Go.Unicode.{ascii}
use outline_gate.Bypass.Disk.{Disk, Faults, persist_text}
use outline_gate.Config.Nets.{
  default_nets, parse_cidrs, merge_ip_nets, merge_from, default_bypass_cidrs, parse_cidr_or_ip,
}
use outline_gate.Go.HostPort.{split_host_port, cut, atoi, decimal}
use outline_gate.Go.Ip.{cidr_mask, ip_mask, to4}
use outline_gate.Go.IpParse.{octet_from, parse_addr, parse_ip, parse_ip4, parse_ip6, parse_cidr}
use outline_gate.Go.IpString.{digits_onto, ip_string, itoa, net_string}
use outline_gate.Config.AccessKey.{
  first_line, read_persisted, persist_access_key, load_access_key, key_content, validate_access_key,
}
use outline_gate.Config.AccessKey.Restart.{load_access_key-persist}
use outline_gate.Config.Types.{Config, defaults}
use outline_gate.Config.Validate.{validate}
use outline_gate.Config.Validate.Sound.{IsSound}
use outline_gate.Config.Environment.{Reads, load_from_env, read_variables}
use outline_gate.Config.Environment.Sound.{load_from_env-IsSound}

abbrev key_text : Text
key_text = codes "ss://a@b:1"

abbrev stored_at : Text
stored_at = codes "/k"

abbrev environment : Text → Text
environment name = if text_eq name (codes "OUTLINE_KEY_PERSIST_FILE") then stored_at else []

abbrev files : Text → Option Text
files path = if text_eq path stored_at then some (key_content key_text) else none

abbrev no_faults : Faults
no_faults = record {
  mkdir_fails = false;
  open_fails = false;
  write_fails = false;
  written = 0;
  sync_fails = false;
  close_fails = false;
  rename_fails = false;
  read_fails = false;
}

abbrev empty_disk : Disk
empty_disk = record { file = none; temp = none; past = [] }

load_access_key-persist_example :
    load_access_key ascii environment files
    ≡ record { moved = false; key = ok (trim_space key_text) }
unfolding persist_access_key validate_access_key persist_text trim_space
load_access_key-persist_example =
    load_access_key-persist ascii no_faults environment files stored_at key_text empty_disk refl
      refl refl

abbrev reads : Reads
reads = record { getenv = environment; read = files; parse_duration = λ t. none }

abbrev loaded : Config
loaded = record defaults {
  access_key = key_text;
  access_key_persist_file = stored_at;
  bypass_cidrs = default_nets;
}

load_from_env-IsSound_example : IsSound loaded
unfolding load_from_env load_access_key trim_space first_line split validate_access_key
    read_variables parse_cidrs split_host_port cut atoi validate read_persisted merge_ip_nets
    merge_from default_bypass_cidrs parse_cidr_or_ip parse_cidr decimal cidr_mask ip_mask to4
    octet_from parse_addr parse_ip parse_ip4 parse_ip6 digits_onto ip_string itoa net_string join
    trim_left
load_from_env-IsSound_example = load_from_env-IsSound ascii reads loaded refl
