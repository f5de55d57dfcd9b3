-- ===== src/Amnezia/Client/Routes.antt =====
-- internal/amnezia/client.go: the route to the server's own address, and the probe through the tunnel.
use outline_gate.Prelude.{ℕ, ◌||◌, List, [], ◌∷◌, ◌++◌, Option, some, none, if◌then◌else◌, any}
use outline_gate.Go.Text.{Text, codes, text_eq, is_empty, is_space, trim_space, cons_head}
use outline_gate.Go.Ip.{is_nil}
use outline_gate.Go.IpString.{ip_string}
use outline_gate.Amnezia.Conf.{endpoint_ip}
use outline_gate.Amnezia.Client.{
  Host, State, Outcome, ClientError, bad_route, bad_probe, bad_command, iface, act, run, dial,
  run_ip,
}

-- `strings.Fields`.
abbrev start_word : ℕ → Text → List Text → List Text
start_word c [] rest = (c ∷ []) ∷ rest
start_word c (d ∷ s) rest = if is_space d then (c ∷ []) ∷ rest else cons_head c rest

unfoldable pub fields : Text → List Text
fields [] = []
fields (c ∷ s) = let rest = fields s in if is_space c then rest else start_word c s rest

-- The loop of `pinEndpointRoute` for one keyword: the field behind its last occurrence that has one.
unfoldable pub field_after : Text → List Text → Text → Text
field_after k [] found = found
field_after k (f ∷ []) found = found
field_after k (f ∷ g ∷ fs) found = field_after k (g ∷ fs) (if text_eq f k then g else found)

abbrev via_args : Text → List Text
via_args via = if is_empty via then [] else codes "via" ∷ via ∷ []

abbrev pub route_args : Text → Text → Text → List Text
route_args ep via dev =
    codes "route" ∷ codes "replace" ∷ ep ∷ (via_args via ++ codes "dev" ∷ dev ∷ [])

abbrev pub pin_if : Text → Outcome → Outcome
pin_if ep (st, some e) = (st, some e)
pin_if ep ((c, m), none) = ((record c { pinned = ep }, m), none)

-- The rest of `pinEndpointRoute`, on the answer of `ip route get`.
abbrev pub pin_with : Host → Text → Option Text × Text → State → Outcome
pin_with h ep (some e, out) st =
    (st, some (bad_command (codes "route" ∷ codes "get" ∷ ep ∷ []) e (trim_space out)))
pin_with h ep (none, out) st =
    let dev = field_after (codes "dev") (fields out) [] in
    if is_empty dev || text_eq dev (iface st.0)
    then (st, some (bad_route ep dev))
    else pin_if ep (run_ip h (route_args ep (field_after (codes "via") (fields out) []) dev) st)

abbrev pub get_args : Text → List Text
get_args ep = codes "ip" ∷ codes "-4" ∷ codes "route" ∷ codes "get" ∷ ep ∷ []

-- `pinEndpointRoute`.
unfoldable pub pin_endpoint_route : Host → State → Outcome
unfolding field_after fields
pin_endpoint_route h st =
    let ep = ip_string (endpoint_ip st.0.conf) in
    if is_nil (endpoint_ip st.0.conf)
    then (st, none)
    else pin_with h ep (h.command st.1.now (get_args ep)) (act h (run (get_args ep)) st)

-- The targets of `probeThrough`: the configured one, and the two others unless they are listed.
abbrev with_target : List Text → Text → List Text
with_target ts t = if any (λ s. text_eq s t) ts then ts else ts ++ t ∷ []

unfoldable pub probe_targets : Text → List Text
probe_targets probe =
    let own : List Text = if is_empty (trim_space probe) then [] else trim_space probe ∷ [] in
    with_target (with_target own (codes "1.1.1.1:80")) (codes "8.8.8.8:53")

-- The loop of `probeThrough`: the first target that answers ends it; `last` is the error so far.
abbrev pub probe_error : Option Text → Option ClientError
probe_error none = none
probe_error (some e) = some (bad_probe e)

abbrev pub or_retry : Option Text → State → (Text → Outcome) → Outcome
or_retry none st k = (st, none)
or_retry (some e) st k = k e

unfoldable pub try_targets : Host → List Text → Option Text → State → Outcome
try_targets h [] last st = (st, probe_error last)
try_targets h (t ∷ ts) last st =
    or_retry (h.dial_error st.1.now t) (act h (dial t) st)
      (λ (e : Text). try_targets h ts (some e) (act h (dial t) st))

-- `probeThrough`.
unfoldable pub probe_through : Host → State → Outcome
unfolding try_targets probe_targets
probe_through h st = try_targets h (probe_targets st.0.probe) none st
