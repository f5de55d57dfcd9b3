-- ===== src/Config/Environment/Sound.antt =====
-- internal/config/config.go: what holds of every configuration that `LoadFromEnv` returns.
use outline_gate.Prelude.{◌≡◌}
use outline_gate.Prelude.Result.{Result, ok, err, ◌>>=◌}
use outline_gate.Go.Text.{Text}
use outline_gate.Go.Unicode.{Unicode}
use outline_gate.Config.AccessKey.{load_access_key}
use outline_gate.Config.Types.{Config, defaults}
use outline_gate.Config.Validate.{Invalid, validate}
use outline_gate.Config.Validate.Sound.{IsSound, validate-IsSound}
use outline_gate.Config.Environment.{
  EnvError, Reads, as_config, as_key, read_variables, variables, read_nets, read_backend, read_uri,
  read_port, fill_token, load_from_env,
}

-- A chain of steps that ends well went well at each step.
bind_ok {ℓ κ} :
    {E : Type 0} {A : Type ℓ} {B : Type κ} (m : Result E A) (f : A → Result E B) (b : B)
    → (m >>= f) ≡ ok b
    → (a : A) × (f a ≡ ok b)
bind_ok (ok a) f b h = (a, h)
bind_ok (err e) f b h = absurd cc

validated : (r : Result Invalid Config) (z : Config) → as_config r ≡ ok z → r ≡ ok z
validated (ok c) z h = cc
validated (err e) z h = absurd cc

-- `load_from_env` from each of its steps on.
abbrev from_port : Unicode → Config → Result EnvError Config
from_port u c = as_config (validate u (fill_token c))

abbrev from_nets : Unicode → Config → Result EnvError Config
from_nets u c = read_port c >>= from_port u

abbrev from_variables : Unicode → Reads → Config → Result EnvError Config
from_variables u r c = read_nets r (read_backend u r (read_uri r c)) >>= from_nets u

abbrev from_key : Unicode → Reads → Text → Result EnvError Config
from_key u r key =
    read_variables r (variables u) (record defaults { access_key = key }) >>= from_variables u r

-- A configuration that `LoadFromEnv` returns, whatever the environment and the files say: there is a
-- key; the mode, the policy, the DNS mode, the log level and the backend are among their constants; the
-- include mode has networks; the first delay of a reconnect is positive and the longest is not below it;
-- the refresh of rules is positive and that of keys not negative; the addresses of SOCKS and health, and
-- of a probe, split into host and port, and a probe has a positive interval and time-out, and at least one
-- failure is allowed; the interface has a name; a user interface has a token; and a DNS service that runs
-- has addresses that split, and a server.
pub load_from_env-IsSound :
    (u : Unicode) (r : Reads) (c : Config) → load_from_env u r ≡ ok c → IsSound c
unfolding load_from_env
load_from_env-IsSound u r c h =
    let (key, h1) = bind_ok (as_key (load_access_key u r.getenv r.read).key) (from_key u r) c h in
    let (read, h2) =
      bind_ok (read_variables r (variables u) (record defaults { access_key = key }))
        (from_variables u r) c h1 in
    let (nets, h3) =
      bind_ok (read_nets r (read_backend u r (read_uri r read))) (from_nets u) c h2 in
    let (port, h4) = bind_ok (read_port nets) (from_port u) c h3 in
    validate-IsSound u (fill_token port) c (validated (validate u (fill_token port)) c h4)
