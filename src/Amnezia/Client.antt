-- ===== src/Amnezia/Client.antt =====
-- internal/amnezia/client.go: the client of the userspace daemon, its settings and its state. What the
-- operating system answers to a command, to a text on the daemon's socket and to a dial is an argument
-- (`Host`), by the time of the call; so is how long a call takes. Times are in nanoseconds. `Machine` holds
-- the time and the calls so far. The lock is not part of the model, since every method that changes the
-- client holds it from its start to its end.
pub mod Routes
pub mod Waits
pub mod Socket
pub mod Up
pub mod Log
use outline_gate.Prelude.{
  ℕ, ◌+◌, ◌*◌, Bool, true, false, not, ◌&&◌, List, [], ◌∷◌, ◌++◌, Option, some, none, if◌then◌else◌,
}
use outline_gate.Prelude.Result.{Result, ok, err, ◌>>=◌}
use outline_gate.Go.Text.{Text, codes, text_eq, is_empty, trim_space}
use outline_gate.Go.Ip.{IpAddr, IpNet, prefer4}
use outline_gate.Go.IpParse.{parse_ip}
use outline_gate.Go.IpString.{ip_string}
use outline_gate.Go.HostPort.{cut}
use outline_gate.Amnezia.Conf.{Config, ConfError, Field, address, interface_net, endpoint_ip}
use outline_gate.Amnezia.Uapi.{UapiError}

-- The dialer: the address that it is bound to, and the device.
pub record Bound : Type 0 where
  pub source : IpAddr
  pub device : Text

-- `Client`; `daemon` tells whether `cmd` is set, which it is only for a process that was started.
pub record Client : Type 0 where
  pub iface_name : Text
  pub wg_path : Text
  pub conf : Config
  pub probe : Text
  pub uapi_dir : Text
  pub daemon : Bool
  pub ready : Bool
  pub dialer : Option Bound
  pub pinned : Text

-- The calls of the operating system that do more than read.
pub data Action : Type 0 where
  run start : List Text → Action
  send dial : Text → Action
  sig_term sig_kill : Action

-- An answer on the socket: the failure of the dial or of the write; the complete lines, without their
-- line feed, of what is read; and the error that ends the reading, none for the end of the stream.
pub record Reply : Type 0 where
  pub refused : Option Text
  pub lines : List Text
  pub ending : Option Text

pub record Host : Type 0 where
  pub exists : Text → Bool
  pub is_file : Text → Bool
  pub look_path : Text → Option Text
  pub join_path : Text → Text → Text
  pub takes : ℕ → Action → ℕ
  -- The error of a command, and its output.
  pub command : ℕ → List Text → Option Text × Text
  pub start_error : ℕ → Option Text
  -- How the daemon ends within two seconds of SIGTERM, if it does.
  pub exits : ℕ → Option (Option Text)
  pub socket : ℕ → Bool
  pub reply : ℕ → Text → Reply
  pub dial_error : ℕ → Text → Option Text

pub record Machine : Type 0 where
  pub now : ℕ
  pub done : List Action

abbrev pub State : Type 0
State = Client × Machine

abbrev pub second : ℕ
second = 1000000000

abbrev pub policy_table : Text
policy_table = codes "51820"

-- A call: it is recorded, the last one first, and takes its time.
abbrev pub act : Host → Action → State → State
act h a (c, m) = (c, record m { now = m.now + h.takes m.now a; done = a ∷ m.done })

-- `iface` and `uapiPath`.
abbrev pub iface : Client → Text
iface c = if is_empty (trim_space c.iface_name) then codes "og-awg0" else trim_space c.iface_name

abbrev pub uapi_path : Host → Client → Text
uapi_path h c =
    h.join_path (if is_empty c.uapi_dir then codes "/var/run/amneziawg" else c.uapi_dir)
      (iface c ++ codes ".sock")

abbrev pub daemon_names : List Text
daemon_names =
    codes "amneziawg-go"
    ∷ codes "/usr/local/bin/amneziawg-go"
    ∷ codes "/opt/AmneziaVPN/bin/amneziawg-go"
    ∷ []

abbrev or_file : Host → Text → Option Text → Option Text → Option Text
or_file h name (some p) rest = some p
or_file h name none rest = if h.exists name && h.is_file name then some name else rest

abbrev search_names : Host → List Text → Option Text
search_names h [] = none
search_names h (n ∷ ns) = or_file h n (h.look_path n) (search_names h ns)

abbrev or_search : Host → Option Text → Option Text
or_search h (some p) = some p
or_search h none = search_names h daemon_names

-- `wgBin`.
unfoldable pub wg_bin : Host → Client → Option Text
wg_bin h c =
    let p = trim_space c.wg_path in
    if is_empty p
    then search_names h daemon_names
    else if h.exists p
    then some p
    else or_search h (h.look_path p)

-- The address of `InterfaceAddr`: the part in front of the slash, or the whole.
abbrev part_ip : Text → Option (Text × Text) → IpAddr
part_ip s none = prefer4 (parse_ip s)
part_ip s (some w) = parse_ip w.0

unfoldable pub interface_ip : Config → IpAddr
interface_ip c = let s = trim_space (c.text address) in part_ip s (cut b'/' s)

-- `InterfaceAddr`.
unfoldable pub interface_addr : Config → Result ConfError (IpAddr × IpNet)
interface_addr c = interface_net c >>= λ (n : IpNet). ok (interface_ip c, n)

-- The errors of the methods, by the call that they come from.
pub data ClientError : Type 0 where
  no_binary out_of_time unsupported not_ready : ClientError
  bad_uapi : UapiError → ClientError
  bad_conf : ConfError → ClientError
  not_started no_socket bad_device bad_peer no_handshake bad_probe dial_failed : Text → ClientError
  bad_command : List Text → Text → Text → ClientError
  bad_route : Text → Text → ClientError
  -- A loop of the model stopped for want of fuel.
  unfinished : ClientError

abbrev pub Outcome : Type 0
Outcome = State × Option ClientError

-- A command whose result is ignored.
abbrev pub ignored : Host → List Text → State → State
ignored h argv st = act h (run argv) st

-- `runIP`.
abbrev pub command_error : List Text → Option Text × Text → Option ClientError
command_error args (none, out) = none
command_error args (some e, out) = some (bad_command args e (trim_space out))

abbrev pub run_ip : Host → List Text → State → Outcome
run_ip h args st =
    let argv : List Text = codes "ip" ∷ args in
    (act h (run argv) st, command_error args (h.command st.1.now argv))

-- The rule that sends what comes from the tunnel's address to the policy table.
abbrev pub rule_args : Text → IpAddr → List Text
rule_args verb ip =
    codes "rule" ∷ verb ∷ codes "from" ∷ ip_string ip ∷ codes "lookup" ∷ policy_table ∷ []

abbrev pub drop_rule : Host → Result ConfError (IpAddr × IpNet) → State → State
drop_rule h (err e) st = st
drop_rule h (ok w) st = ignored h (codes "ip" ∷ rule_args (codes "del") w.0) st

abbrev pub unpin_from : Host → Text → State → State
unpin_from h [] st = st
unpin_from h (x ∷ t) st =
    let w = ignored h (codes "ip" ∷ codes "route" ∷ codes "del" ∷ (x ∷ t) ∷ []) st in
    (record w.0 { pinned = [] }, w.1)

abbrev pub unpin : Host → State → State
unpin h st = unpin_from h st.0.pinned st

-- The end of the process: SIGTERM, and SIGKILL if it is still there after two seconds.
abbrev pub after_term : Host → Option (Option Text) → State → State × Option Text
after_term h (some e) st = (st, e)
after_term h none st = (act h sig_kill st, none)

abbrev pub stop_if : Host → Bool → State → State × Option Text
stop_if h false st = (st, none)
stop_if h true st =
    let w = after_term h (h.exits st.1.now) (act h sig_term st) in
    ((record w.0.0 { daemon = false }, w.0.1), w.1)

abbrev pub stop_daemon : Host → State → State × Option Text
stop_daemon h st = stop_if h st.0.daemon st

abbrev pub del_link : Host → State → State
del_link h st =
    ignored h (codes "ip" ∷ codes "link" ∷ codes "del" ∷ codes "dev" ∷ iface st.0 ∷ []) st

abbrev pub flush_args : List Text
flush_args = codes "ip" ∷ codes "route" ∷ codes "flush" ∷ codes "table" ∷ policy_table ∷ []

-- `downLocked`, which is `Down`.
unfoldable pub down : Host → State → State × Option Text
unfolding interface_addr
down h (c, m) =
    let quiet : Client = record c { ready = false; dialer = none } in
    let st = drop_rule h (interface_addr c.conf) (quiet, m) in
    let w = stop_daemon h (unpin h (ignored h flush_args st)) in (del_link h w.0, w.1)

-- `DialContext`; the dialer's own answer is the last argument.
abbrev through : Option Bound → Option Text → Option ClientError
through none e = some not_ready
through (some b) none = none
through (some b) (some e) = some (dial_failed e)

unfoldable pub dial_context : Host → Text → Text → State → Outcome
dial_context h network addr st =
    if not (text_eq network (codes "tcp"))
      && (not (text_eq network (codes "tcp4")) && not (text_eq network (codes "tcp6")))
    then (st, some unsupported)
    else if not st.0.ready
    then (st, some not_ready)
    else elim st.0.dialer [
      | none ↦ (st, some not_ready)
      | some b ↦ (act h (dial addr) st, through (some b) (h.dial_error st.1.now addr))
    ]
