-- ===== src/Outline.antt =====
-- internal/outline/client.go: the client of the Outline tunnel. What the key service, the Shadowsocks
-- library and the network answer during one call is an argument (`Network`); a dialer is known by the key
-- that it was built from. Callbacks are values in a list, the last first. The loop that makes these calls
-- is in Outline.Maintain; the logging is left out.
pub mod Ssconf
pub mod Ready
pub mod Maintain
use outline_gate.Prelude.{
  ℕ, zero, suc, ◌+◌, ◌*◌, ◌%◌, ◌^◌, ◌-◌, Bool, true, false, not, ◌&&◌, ◌||◌, List, [], ◌∷◌, Option,
  some, none, ltb, leb, if◌then◌else◌, ℤ, pos, negsuc,
}
use outline_gate.Prelude.Result.{Result, ok, err}
use outline_gate.Go.Text.{
  Text, codes, text_eq, is_empty, trim_space, has_prefix, has_part, contains,
}
use outline_gate.Go.Ip.{IpAddr, is_nil, to4}
use outline_gate.Go.IpParse.{parse_ip}
use outline_gate.Go.IpString.{ip_string}

-- An error of a dial: its text, and whether it is a `net.Error` that says it is a time-out.
pub record DialError : Type 0 where
  pub message : Text
  pub timeout : Bool

-- What `url.Parse` gives.
pub record Url : Type 0 where
  pub scheme : Text
  pub hostname : Text

-- The fields `expand` and `newDialer` of the client, `url.Parse`, `net.LookupIP`, the wait for a slot, and
-- `DialStream` of the dialer for a key.
pub record Network : Type 0 where
  pub expand : Text → Option Text
  pub builds : Text → Bool
  pub parse_url : Text → Option Url
  pub lookup : Text → Option (List IpAddr)
  pub slot : Option DialError
  pub dial : Text → Text → Option DialError

abbrev first_of : List IpAddr → IpAddr
first_of [] = []
first_of (ip ∷ ips) = ip

abbrev first_v4 : List IpAddr → List IpAddr → IpAddr
first_v4 all [] = first_of all
first_v4 all (ip ∷ ips) = let rest = first_v4 all ips in if is_nil (to4 ip) then rest else to4 ip

abbrev looked_up : Option (List IpAddr) → IpAddr
looked_up none = []
looked_up (some ips) = first_v4 ips ips

abbrev host_ip : Network → Text → IpAddr
host_ip n host =
    let ip = parse_ip host in
    if is_nil ip then looked_up (n.lookup host) else if is_nil (to4 ip) then ip else to4 ip

-- `ResolveServerIP`; an error is nil, as its callers take it. A URL without a host gives an error,
-- whatever its scheme.
abbrev resolve_url : Network → Option Url → IpAddr
resolve_url n none = []
resolve_url n (some url) = if is_empty url.hostname then [] else host_ip n url.hostname

unfoldable pub resolve_server_ip : Network → Text → IpAddr
resolve_server_ip n text =
    let key = trim_space text in
    if is_empty key || contains key b'|' then [] else resolve_url n (n.parse_url key)

pub data Callback : Type 0 where
  unready : Callback
  expanded : Text → Callback
  probed : Bool → Callback
  refreshed : Bool → Bool → Callback

pub record Client : Type 0 where
  pub access_key : Text
  pub probe_addr : Text
  pub probe_fails : ℤ
  pub dialer : Option Text
  pub server_ip : IpAddr
  pub expanded_key : Text
  pub ready : Bool
  pub fail_count : ℕ
  pub woken : Bool
  pub calls : List Callback

pub data ClientError : Type 0 where
  bad_key no_expansion no_dialer bad_network not_ready : ClientError
  dial_failed : DialError → ClientError

-- `New`, for options with a key; the defaults of the intervals are left out.
abbrev pub new_client : Network → Text → Text → ℤ → Text → Client
new_client n key probe_addr probe_fails last = record {
  access_key = key;
  probe_addr = trim_space probe_addr;
  probe_fails = elim probe_fails [
    | pos m ↦ elim m [ zero ↦ pos 2 | suc k ↦ pos (suc k) ]
    | negsuc m ↦ pos 2
  ];
  dialer = none;
  server_ip = resolve_server_ip n key;
  expanded_key = if has_prefix (trim_space last) (codes "ss://") then trim_space last else [];
  ready = false;
  fail_count = 0;
  woken = false;
  calls = [];
}

abbrev pub Outcome : Type 0
Outcome = Client × Option ClientError

-- `kick`: the channel holds one signal.
abbrev pub kick : Client → Client
kick c = record c { woken = true }

abbrev pub not_up : Client → Client
not_up c = record c { ready = false }

-- `applyExpanded`.
abbrev pub applied : Network → Text → Client → Client
applied n key c = record c {
  dialer = some key;
  expanded_key = key;
  server_ip = resolve_server_ip n key;
  fail_count = 0;
  ready = true;
  calls = if has_prefix key (codes "ss://") then expanded key ∷ c.calls else c.calls;
}

unfoldable pub apply_expanded : Network → Text → Client → Outcome
apply_expanded n key c = if n.builds key then (applied n key c, none) else (c, some no_dialer)

-- An error of a step takes the tunnel down.
abbrev pub or_down : ClientError → Outcome → Outcome
or_down e (c, none) = (c, none)
or_down e (c, some _) = (not_up c, some e)

abbrev pub connect_with : Network → Client → Option Text → Outcome
connect_with n c (some key) = or_down no_dialer (apply_expanded n key c)
connect_with n c none =
    if has_prefix c.expanded_key (codes "ss://")
    then or_down no_expansion (apply_expanded n c.expanded_key c)
    else (not_up c, some no_expansion)

-- `Connect`.
unfoldable pub connect : Network → Client → Outcome
connect n c = connect_with n c (n.expand c.access_key)

-- `validateKey`, for a trimmed key.
abbrev pub is_bad_key : Text → Bool
is_bad_key key =
    is_empty key
    || has_part key (codes "***")
    || contains key b' '
    || contains key b'\t'
    || contains key b'\r'
    || contains key b'\n'
    || (not (has_prefix key (codes "ss://")) && not (has_prefix key (codes "ssconf://")))

abbrev pub kick_on_error : Outcome → Outcome
kick_on_error (c, none) = (c, none)
kick_on_error (c, some e) = (kick c, some e)

-- `SetAccessKey`.
unfoldable pub set_access_key : Network → Text → Client → Outcome
set_access_key n text c =
    let key = trim_space text in
    if is_bad_key key
    then (c, some bad_key)
    else kick_on_error (connect n (record c { access_key = key; ready = false }))

-- `failThreshold`.
abbrev pub fail_threshold : ℤ → ℕ
fail_threshold (pos (suc n)) = suc n
fail_threshold _ = 2

-- `int(n) >= c.failThreshold()`, for the bits of an int32.
abbrev pub reached : ℕ → ℕ → Bool
reached n threshold = ltb n (2 ^ 31) && leb threshold n

-- `noteTunnelFailure`.
unfoldable pub note_tunnel_failure : Client → Client
note_tunnel_failure c =
    let n = (c.fail_count + 1) % 2 ^ 32 in
    if reached n (fail_threshold c.probe_fails) && c.ready
    then record c { fail_count = n; ready = false; woken = true; calls = unready ∷ c.calls }
    else record c { fail_count = n }

-- `isTransportFailure`.
unfoldable pub is_transport_failure : Client → DialError → Bool
is_transport_failure c e =
    e.timeout
    || (not (is_nil c.server_ip) && has_part e.message (ip_string c.server_ip))
    || has_part e.message (codes "i/o timeout")

-- `noteDialResult`.
abbrev pub note_dial_result : Option DialError → Client → Client
note_dial_result none c = record c { fail_count = 0 }
note_dial_result (some e) c = if is_transport_failure c e then note_tunnel_failure c else c

abbrev pub as_error : Option DialError → Option ClientError
as_error none = none
as_error (some e) = some (dial_failed e)

abbrev pub dial_by : Network → Text → Client → Option Text → Outcome
dial_by n address c none = (c, some not_ready)
dial_by n address c (some key) =
    let answer = n.dial key address in (note_dial_result answer c, as_error answer)

abbrev pub after_slot : Network → Text → Client → Option DialError → Outcome
after_slot n address c (some e) = (c, some (dial_failed e))
after_slot n address c none = dial_by n address c c.dialer

-- `DialContext`. The tunnel is taken not to go down while the call waits for its slot.
unfoldable pub dial_context : Network → Text → Text → Client → Outcome
dial_context n network address c =
    if not (
      text_eq network (codes "tcp")
      || text_eq network (codes "tcp4")
      || text_eq network (codes "tcp6"))
    then (c, some bad_network)
    else if not c.ready
    then (c, some not_ready)
    else after_slot n address c n.slot

-- Whether an error of `DialContext` is a transport failure.
abbrev pub is_transport : Client → ClientError → Bool
is_transport c (dial_failed e) = is_transport_failure c e
is_transport c _ = false

abbrev pub called : Callback → Client → Client
called k c = record c { calls = k ∷ c.calls }

abbrev pub after_probe : Outcome → Outcome
after_probe (c, none) = (called (probed true) c, none)
after_probe (c, some e) =
    let noted = called (probed false) c in
    ((if is_transport noted e then noted else note_tunnel_failure noted), some e)

-- `probe`.
unfoldable pub probe : Network → Client → Outcome
probe n c =
    if is_empty c.probe_addr
    then (c, none)
    else after_probe (dial_context n (codes "tcp") c.probe_addr c)

-- `Reconnect`.
abbrev pub after_reprobe : Outcome → Outcome
after_reprobe (c, none) = (kick c, none)
after_reprobe (c, some e) = (kick (not_up c), some e)

abbrev pub after_connect : Network → Outcome → Outcome
after_connect n (c, some e) = (kick c, some e)
after_connect n (c, none) = after_reprobe (probe n c)

unfoldable pub reconnect : Network → Client → Outcome
reconnect n c = after_connect n (connect n (record c { ready = false; fail_count = 0 }))

-- `isDynamicKey`, and `refreshIfChanged` with its answer.
abbrev pub is_dynamic_key : Text → Bool
is_dynamic_key s = has_prefix (trim_space s) (codes "ssconf://")

abbrev pub after_refresh : Outcome → Client × Bool
after_refresh (c, none) = (called (refreshed true true) c, true)
after_refresh (c, some e) = (called (refreshed false false) c, false)

abbrev pub refresh_with : Network → Client → Option Text → Client × Bool
refresh_with n c none = (called (refreshed false false) c, false)
refresh_with n c (some key) =
    if text_eq key c.expanded_key
    then (called (refreshed true false) c, false)
    else after_refresh (apply_expanded n key c)

unfoldable pub refresh_if_changed : Network → Client → Client × Bool
refresh_if_changed n c =
    if is_dynamic_key c.access_key then refresh_with n c (n.expand c.access_key) else (c, false)
