-- ===== src/Amnezia/Client/Up.antt =====
-- internal/amnezia/client.go: `Up`. Once the daemon runs, every step that fails tears everything down, so
-- these steps are a list that `chain` runs up to the first failure. A loop has the fuel for its deadline.
pub mod Swept
pub mod Steps
pub mod Ends
pub mod Local
use outline_gate.Prelude.{
  ℕ, zero, suc, ◌+◌, ◌*◌, Bool, true, false, List, [], ◌∷◌, ◌++◌, Option, some, none, if◌then◌else◌,
  all, ◌==◌, ◌&&◌, leb, length,
}
use outline_gate.Prelude.Result.{Result, ok, err}
use outline_gate.Go.Text.{Text, codes, is_empty}
use outline_gate.Go.Ip.{IpAddr, IpNet}
use outline_gate.Go.IpString.{ip_string, net_string}
use outline_gate.Amnezia.Conf.{Config, ConfError, endpoint}
use outline_gate.Amnezia.Uapi.{UapiError, uapi_device, uapi_peer}
use outline_gate.Amnezia.Client.{
  Bound, Client, Host, Machine, State, Outcome, ClientError, no_binary, out_of_time, bad_uapi,
  bad_conf, not_started, no_socket, bad_device, bad_peer, no_handshake, unfinished, second,
  policy_table, act, run, start, iface, uapi_path, wg_bin, interface_addr, ignored, run_ip,
  rule_args, down, del_link, Action,
}
use outline_gate.Amnezia.Client.Waits.{
  Wait, Waited, arrived, cancelled, timed_out, out_of_fuel, wait_for,
}
use outline_gate.Amnezia.Client.Socket.{uapi_cmd, handshake_ok, get_request}
use outline_gate.Amnezia.Client.Routes.{pin_endpoint_route, probe_through}
use outline_gate.Amnezia.Client.{send}

-- What `Up` computes in front of any change.
pub record Plan : Type 0 where
  pub bin : Text
  pub device_body : Text
  pub peer_body : Text
  pub ip : IpAddr
  pub net : IpNet

abbrev pub with_addr :
    Text → Text → Text → Result ConfError (IpAddr × IpNet) → Result ClientError Plan
with_addr bin dev peer (err e) = err (bad_conf e)
with_addr bin dev peer (ok w) =
    ok (record { bin = bin; device_body = dev; peer_body = peer; ip = w.0; net = w.1 })

abbrev pub with_peer : Config → Text → Text → Result UapiError Text → Result ClientError Plan
with_peer c bin dev (err e) = err (bad_uapi e)
with_peer c bin dev (ok peer) = with_addr bin dev peer (interface_addr c)

abbrev pub with_device : Config → Text → Result UapiError Text → Result ClientError Plan
with_device c bin (err e) = err (bad_uapi e)
with_device c bin (ok dev) = with_peer c bin dev (uapi_peer c)

abbrev pub with_bin : Config → Option Text → Result ClientError Plan
with_bin c none = err no_binary
with_bin c (some bin) = with_device c bin (uapi_device c)

unfoldable pub make_plan : Host → Client → Result ClientError Plan
unfolding wg_bin interface_addr
make_plan h c = with_bin c.conf (wg_bin h c)

-- The text of the address: a mask of 32 bits shows the address, any other the network.
unfoldable pub cidr_text : Plan → Text
cidr_text p =
    if length p.net.mask == 4 && all (λ b. b == 0xff) p.net.mask
    then ip_string p.ip ++ codes "/32"
    else net_string p.net

-- The steps. `limit` is the end of the context of `Up`.
abbrev pub Step : Type 0
Step = State → Outcome

abbrev pub waited : ClientError → Waited → Option ClientError
waited late arrived = none
waited late cancelled = some out_of_time
waited late timed_out = some late
waited late out_of_fuel = some unfinished

abbrev pub after_wait : ClientError → State → ℕ × Waited → Outcome
after_wait late (c, m) (t, w) = ((c, record m { now = t }), waited late w)

abbrev pub socket_wait : Host → ℕ → ℕ → Wait
socket_wait h limit now = record {
  test = h.socket;
  cost = λ t. 0;
  pause = 50000000;
  deadline = now + 8 * second;
  context_end = limit;
}

abbrev pub socket_fuel : ℕ
socket_fuel = 162

unfoldable pub wait_socket : Host → ℕ → Step
wait_socket h limit st =
    after_wait (no_socket (uapi_path h st.0)) st
      (wait_for (socket_wait h limit st.1.now) socket_fuel st.1.now)

abbrev pub handshake_wait : Host → ℕ → ℕ → Wait
handshake_wait h limit now = record {
  test = handshake_ok h;
  cost = λ t. h.takes t (send get_request);
  pause = 400000000;
  deadline = now + 20 * second;
  context_end = limit;
}

abbrev pub handshake_fuel : ℕ
handshake_fuel = 52

unfoldable pub wait_handshake : Host → ℕ → Step
unfolding handshake_ok
wait_handshake h limit st =
    after_wait (no_handshake (st.0.conf.text endpoint)) st
      (wait_for (handshake_wait h limit st.1.now) handshake_fuel st.1.now)

abbrev pub sent : (Text → ClientError) → State × Option Text → Outcome
sent name (st, none) = (st, none)
sent name (st, some e) = (st, some (name e))

abbrev pub set_request : Text → Text
set_request body = codes "set=1\n" ++ (body ++ codes "\n")

abbrev pub send_device : Host → Plan → Step
send_device h p st = sent bad_device (uapi_cmd h (set_request p.device_body) st)

abbrev pub send_peer : Host → Plan → Step
send_peer h p st = sent bad_peer (uapi_cmd h (set_request p.peer_body) st)

abbrev pub set_address : Host → Plan → Step
set_address h p st =
    run_ip h (codes "addr" ∷ codes "replace" ∷ cidr_text p ∷ codes "dev" ∷ iface st.0 ∷ []) st

-- The commands whose errors are ignored: in front of the activation, and in front of the policy route.
abbrev pub before_link : Host → State → State
before_link h st =
    let dev = iface st.0 in
    let quiet : Text = codes "net.ipv6.conf." ++ (dev ++ codes ".disable_ipv6=1") in
    (run_ip h (codes "link" ∷ codes "set" ∷ codes "dev" ∷ dev ∷ codes "mtu" ∷ codes "1280" ∷ [])
      (ignored h (codes "sysctl" ∷ codes "-w" ∷ quiet ∷ []) st)).0

abbrev pub link_up : Host → Step
link_up h st =
    run_ip h (codes "link" ∷ codes "set" ∷ codes "dev" ∷ iface st.0 ∷ codes "up" ∷ [])
      (before_link h st)

abbrev pub before_route : Host → Plan → State → State
before_route h p st =
    ignored h (codes "ip" ∷ rule_args (codes "del") p.ip) (pin_endpoint_route h st).0

abbrev pub default_args : Text → List Text
default_args dev =
    codes "route"
    ∷ codes "replace"
    ∷ codes "default"
    ∷ codes "dev"
    ∷ dev
    ∷ codes "table"
    ∷ policy_table
    ∷ []

abbrev pub policy_route : Host → Plan → Step
policy_route h p st = run_ip h (default_args (iface st.0)) (before_route h p st)

abbrev pub policy_rule : Host → Plan → Step
policy_rule h p st = run_ip h (rule_args (codes "add") p.ip) st

abbrev pub set_dialer : Plan → Step
set_dialer p (c, m) =
    ((record c { dialer = some (record { source = p.ip; device = iface c }) }, m), none)

-- The steps in front of the dialer, and from it on.
abbrev pub configure : Host → ℕ → Plan → List Step
configure h limit p =
    wait_socket h limit
    ∷ send_device h p
    ∷ send_peer h p
    ∷ set_address h p
    ∷ link_up h
    ∷ policy_route h p
    ∷ policy_rule h p
    ∷ []

abbrev pub reach_steps : Host → ℕ → Plan → List Step
reach_steps h limit p = wait_handshake h limit ∷ probe_through h ∷ []

abbrev pub connect_steps : Host → ℕ → Plan → List Step
connect_steps h limit p = set_dialer p ∷ reach_steps h limit p

abbrev pub or_next : Outcome → (State → Outcome) → Outcome
or_next (st, some e) k = (st, some e)
or_next (st, none) k = k st

unfoldable pub chain : List Step → State → Outcome
chain [] st = (st, none)
chain (s ∷ ss) st = or_next (s st) (λ (st' : State). chain ss st')

-- The end of `Up` once the daemon runs.
abbrev pub conclude : Host → Outcome → Outcome
conclude h (st, some e) = ((down h st).0, some e)
conclude h ((c, m), none) = ((record c { ready = true }, m), none)

abbrev pub started : State → State
started (c, m) = (record c { daemon = true }, m)

abbrev pub start_args : Plan → State → List Text
start_args p st = p.bin ∷ codes "-f" ∷ iface st.0 ∷ []

-- The start of the daemon, from a state at whose time the context was made.
abbrev pub run_daemon : Host → Plan → ℕ → Option Text → State → Outcome
run_daemon h p limit (some e) st = (st, some (not_started e))
run_daemon h p limit none st =
    conclude h
      (or_next (chain (configure h limit p) (started st)) (chain (connect_steps h limit p)))

abbrev launch : Host → Plan → State → Outcome
launch h p st =
    run_daemon h p (st.1.now + 45 * second) (h.start_error st.1.now)
      (act h (start (start_args p st)) st)

abbrev pub with_plan : Host → State → Result ClientError Plan → Outcome
with_plan h st (err e) = (st, some e)
with_plan h st (ok p) = launch h p (del_link h st)

-- `Up`.
unfoldable pub up : Host → State → Outcome
unfolding down make_plan chain
up h st = let quiet = (down h st).0 in with_plan h quiet (make_plan h quiet.0)
