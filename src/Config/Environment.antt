-- ===== src/Config/Environment.antt =====
-- internal/config/config.go: `LoadFromEnv`. The environment and the files are functions (`Reads`);
-- `time.ParseDuration` is Go's, and an argument.
pub mod Sound
use outline_gate.Prelude.{
  ℕ, Bool, true, false, not, ◌&&◌, ◌||◌, List, [], ◌∷◌, ◌++◌, Option, some, none, if◌then◌else◌, ℤ,
}
use outline_gate.Prelude.Result.{Result, ok, err, ◌>>=◌}
use outline_gate.Go.Text.{Text, codes, text_eq, is_empty, trim_space, split, has_prefix}
use outline_gate.Go.Unicode.{Unicode, lower}
use outline_gate.Go.Ip.{IpNet}
use outline_gate.Go.HostPort.{split_host_port, atoi}
use outline_gate.Config.Nets.{NetError, parse_cidrs, default_bypass_cidrs, merge_ip_nets}
use outline_gate.Config.AccessKey.{
  LoadError, KeyLoad, load_access_key, first_non_comment_line, read_persisted,
}
use outline_gate.Config.Types.{Config, defaults, default_ui_token}
use outline_gate.Config.Validate.{Invalid, validate, one_of}

-- What the process reads: the environment, a file (`none` is an error) and a duration.
pub record Reads : Type 0 where
  pub getenv : Text → Text
  pub read : Text → Option Text
  pub parse_duration : Text → Option ℤ

pub data EnvError : Type 0 where
  bad_access_key : LoadError → EnvError
  bad_value : Text → EnvError
  bad_list : Text → EnvError
  bad_transproxy : EnvError
  invalid : Invalid → EnvError

-- `strconv.ParseBool`.
abbrev pub parse_bool : Text → Option Bool
parse_bool s =
    if one_of (codes "1" ∷ codes "t" ∷ codes "T" ∷ codes "true" ∷ codes "TRUE" ∷ codes "True" ∷ [])
      s
    then some true
    else if one_of
        (codes "0" ∷ codes "f" ∷ codes "F" ∷ codes "false" ∷ codes "FALSE" ∷ codes "False" ∷ []) s
    then some false
    else none

-- `splitCSV`.
abbrev pub nonblank : List Text → List Text
nonblank [] = []
nonblank (p ∷ ps) =
    let rest = nonblank ps in if is_empty (trim_space p) then rest else trim_space p ∷ rest

abbrev pub split_csv : Text → List Text
split_csv v = nonblank (split b',' v)

-- `parseProbeAddr`.
abbrev pub parse_probe_addr : Unicode → Text → Text
parse_probe_addr u text =
    let v = trim_space text in
    if one_of
      ([]
        ∷ codes "off"
        ∷ codes "none"
        ∷ codes "-"
        ∷ codes "false"
        ∷ codes "disable"
        ∷ codes "disabled"
        ∷ [])
      (lower u v)
    then []
    else v

-- How the value of a variable enters the configuration.
pub data Assignment : Type 0 where
  text : (Text → Config → Config) → Assignment
  switch : (Bool → Config → Config) → Assignment
  delay : (ℤ → Config → Config) → Assignment
  count : (ℤ → Config → Config) → Assignment

-- The variables, in order.
abbrev pub variables : Unicode → List (Text × Assignment)
variables u =
    (codes "ROUTING_MODE", text (λ v c. record c { routing_mode = lower u v }))
    ∷ (codes "DIRECT_POLICY", text (λ v c. record c { direct_policy = lower u v }))
    ∷ (codes "LAN_INTERFACE", text (λ v c. record c { lan_interface = v }))
    ∷ (codes "GATEWAY_ENABLE", switch (λ b c. record c { gateway_enable = b }))
    ∷ (codes "GATEWAY_OUTPUT_ENABLE", switch (λ b c. record c { gateway_output_enable = b }))
    ∷ (codes "SOCKS_LISTEN", text (λ v c. record c { socks_listen = v }))
    ∷ (codes "HEALTH_LISTEN", text (λ v c. record c { health_listen = v }))
    ∷ (codes "TRANSPROXY_LISTEN", text (λ v c. record c { transproxy_listen = v }))
    ∷ (codes "LOG_LEVEL", text (λ v c. record c { log_level = lower u v }))
    ∷ (codes "LOG_FORMAT", text (λ v c. record c { log_format = lower u v }))
    ∷ (codes "DNS_MODE", text (λ v c. record c { dns_mode = lower u v }))
    ∷ (codes "DNS_SERVERS", text (λ v c. record c { dns_servers = split_csv v }))
    ∷ (codes "DNS_LISTEN", text (λ v c. record c { dns_listen = split_csv v }))
    ∷ (codes "DNS_DOH_URL", text (λ v c. record c { doh_url = v }))
    ∷ (codes "DNS_DOH_ADDR", text (λ v c. record c { doh_addr = v }))
    ∷ (codes "RECONNECT_BASE_DELAY", delay (λ d c. record c { reconnect_base = d }))
    ∷ (codes "RECONNECT_MAX_DELAY", delay (λ d c. record c { reconnect_max = d }))
    ∷ (codes "UI_ENABLE", switch (λ b c. record c { ui_enable = b }))
    ∷ (codes "UI_TOKEN", text (λ v c. record c { ui_token = v }))
    ∷ (codes "BYPASS_RULES_FILE", text (λ v c. record c { bypass_rules_file = v }))
    ∷ (codes "BLOCK_RULES_FILE", text (λ v c. record c { block_rules_file = v }))
    ∷ (codes "BYPASS_DNS_REFRESH", delay (λ d c. record c { bypass_dns_refresh = d }))
    ∷ (codes "OUTLINE_KEY_PERSIST_FILE", text (λ v c. record c { access_key_persist_file = v }))
    ∷ (codes "METRICS_ENABLE", switch (λ b c. record c { metrics_enable = b }))
    ∷ (codes "SSCONF_REFRESH_INTERVAL", delay (λ d c. record c { ssconf_refresh = d }))
    ∷ (codes "TUNNEL_PROBE_ADDR", text (λ v c. record c { probe_addr = parse_probe_addr u v }))
    ∷ (codes "TUNNEL_PROBE_INTERVAL", delay (λ d c. record c { probe_interval = d }))
    ∷ (codes "TUNNEL_PROBE_TIMEOUT", delay (λ d c. record c { probe_timeout = d }))
    ∷ (codes "TUNNEL_PROBE_FAILS", count (λ n c. record c { probe_fails = n }))
    ∷ (codes "TUNNEL_BACKEND_PERSIST_FILE", text (λ v c. record c { backend_persist_file = v }))
    ∷ (codes "AMNEZIA_CONFIG_FILE", text (λ v c. record c { amnezia_config_file = v }))
    ∷ (codes "AMNEZIA_VPN_URI", text (λ v c. record c { amnezia_vpn_uri = v }))
    ∷ (codes "AMNEZIA_VPN_URI_FILE", text (λ v c. record c { amnezia_vpn_uri_file = v }))
    ∷ (codes "AMNEZIA_IFACE", text (λ v c. record c { amnezia_iface = v }))
    ∷ (codes "AMNEZIA_WG_BIN", text (λ v c. record c { amnezia_wg_bin = v }))
    ∷ []

abbrev pub put_value {ℓ} :
    {A : Type ℓ} → Text → (A → Config → Config) → Option A → Config → Result EnvError Config
put_value name f none c = err (bad_value name)
put_value name f (some a) c = ok (f a c)

abbrev pub put_text : Reads → Text → Assignment → Text → Config → Result EnvError Config
put_text r name (text f) v c = ok (f v c)
put_text r name (switch f) v c = put_value name f (parse_bool v) c
put_text r name (delay f) v c = put_value name f (r.parse_duration v) c
put_text r name (count f) v c = put_value name f (atoi v) c

-- The block for a variable: nothing for a blank value.
abbrev pub read_variable : Reads → Text × Assignment → Config → Result EnvError Config
read_variable r (name, a) c =
    let v = trim_space (r.getenv name) in if is_empty v then ok c else put_text r name a v c

unfoldable pub read_variables : Reads → List (Text × Assignment) → Config → Result EnvError Config
read_variables r [] c = ok c
read_variables r (x ∷ xs) c = read_variable r x c >>= read_variables r xs

-- `AmneziaVPNURI`, and the backend with the persisted choice.
abbrev first_of_file : Option Text → Text → Text
first_of_file none old = old
first_of_file (some s) old = first_non_comment_line s

abbrev pub read_uri : Reads → Config → Config
read_uri r c =
    if is_empty c.amnezia_vpn_uri && not (is_empty c.amnezia_vpn_uri_file)
    then record c {
      amnezia_vpn_uri = first_of_file (r.read c.amnezia_vpn_uri_file) c.amnezia_vpn_uri;
    }
    else c

abbrev pub or_text : Text → Text → Text
or_text s other = if is_empty s then other else s

abbrev pub read_backend : Unicode → Reads → Config → Config
read_backend u r c =
    let asked = lower u (trim_space (r.getenv (codes "TUNNEL_BACKEND"))) in
    let kept = lower u (read_persisted r.read (trim_space c.backend_persist_file)) in
    record c { tunnel_backend = or_text kept (or_text asked c.tunnel_backend) }

-- `readListFile`, whose error is `none`.
abbrev pub content_lines : List Text → List Text
content_lines [] = []
content_lines (l ∷ ls) =
    let rest = content_lines ls in
    if is_empty (trim_space l) || has_prefix (trim_space l) (codes "#")
    then rest
    else trim_space l ∷ rest

abbrev pub read_list_file : Option Text → Option (List Text)
read_list_file none = none
read_list_file (some s) = some (content_lines (split b'\n' s))

abbrev pub parse_list : Text → List Text → Option (List Text) → Result EnvError (List IpNet)
parse_list name raw none = err (bad_list name)
parse_list name raw (some more) = elim (parse_cidrs (raw ++ more)) [
  | err e ↦ err (bad_list name)
  | ok ns ↦ ok ns
]

-- `loadCIDRs`; a blank variable gives nothing, and a blank path no file.
abbrev pub load_cidrs : Reads → Text → Text → Result EnvError (List IpNet)
load_cidrs r env_key file_key =
    let v = trim_space (r.getenv env_key) in
    let path = trim_space (r.getenv file_key) in
    parse_list env_key (if is_empty v then [] else split_csv v)
      (if is_empty path then some [] else read_list_file (r.read path))

abbrev or_nil : Option (List IpNet) → List IpNet
or_nil none = []
or_nil (some ns) = ns

-- The three lists; the default networks do not panic (Config.Nets).
abbrev pub read_nets : Reads → Config → Result EnvError Config
read_nets r c = do
  bypass ← load_cidrs r (codes "BYPASS_CIDRS") (codes "BYPASS_CIDRS_FILE")
  tunnel ← load_cidrs r (codes "TUNNEL_CIDRS") (codes "TUNNEL_CIDRS_FILE")
  allow ← load_cidrs r (codes "SOCKS_ALLOW_CIDRS") (codes "SOCKS_ALLOW_CIDRS_FILE")
  ok (record c {
    bypass_cidrs = merge_ip_nets (or_nil default_bypass_cidrs) bypass;
    tunnel_cidrs = tunnel;
    socks_allow_cidrs = allow;
  })

-- The port of `TransproxyListen`.
abbrev pub listen_port : Option (Text × Text) → Option ℤ
listen_port none = none
listen_port (some w) = atoi w.1

abbrev pub put_port : Option ℤ → Config → Result EnvError Config
put_port none c = err bad_transproxy
put_port (some p) c = ok (record c { transproxy_port = p })

abbrev pub read_port : Config → Result EnvError Config
read_port c = put_port (listen_port (split_host_port c.transproxy_listen)) c

abbrev pub fill_token : Config → Config
fill_token c =
    if c.ui_enable && is_empty (trim_space c.ui_token)
    then record c { ui_token = default_ui_token }
    else c

abbrev pub as_key : Result LoadError Text → Result EnvError Text
as_key (ok k) = ok k
as_key (err e) = err (bad_access_key e)

abbrev pub as_config : Result Invalid Config → Result EnvError Config
as_config (ok c) = ok c
as_config (err e) = err (invalid e)

-- `LoadFromEnv`. That a persisted key is moved away is not seen by the later reads.
unfoldable pub load_from_env : Unicode → Reads → Result EnvError Config
load_from_env u r = do
  key ← as_key (load_access_key u r.getenv r.read).key
  c ← read_variables r (variables u) (record defaults { access_key = key })
  nets ← read_nets r (read_backend u r (read_uri r c))
  port ← read_port nets
  as_config (validate u (fill_token port))
