-- ===== src/Amnezia/Client/Up/Steps.antt =====
-- internal/amnezia/client.go: what the steps of `Up` keep of the client.
use outline_gate.Prelude.{ℕ, ◌≢◌, refl, List, [], ◌∷◌, Option, some, none, arith, if-both, All}
use outline_gate.Go.Text.{Text, codes}
use outline_gate.Amnezia.Client.{Client, Host, State, Outcome, ClientError, unfinished, act, run}
use outline_gate.Amnezia.Client.Up.{
  Plan, or_next, chain, wait_socket, wait_handshake, send_device, send_peer, before_link,
  before_route, configure, reach_steps, waited, socket_wait, socket_fuel, handshake_wait,
  handshake_fuel, sent, set_request,
}
use outline_gate.Amnezia.Client.{
  run_ip, dial, command_error, bad_device, bad_peer, no_socket, no_handshake, uapi_path,
}
use outline_gate.Amnezia.Conf.{endpoint}
use outline_gate.Amnezia.Client.Socket.{uapi_cmd}
use outline_gate.Amnezia.Client.Routes.{
  pin_endpoint_route, pin_with, pin_if, or_retry, probe_targets, try_targets, probe_through,
}
use outline_gate.Amnezia.Client.Waits.{
  Waited, arrived, cancelled, timed_out, out_of_fuel, wait_for, wait_for-ends,
}

-- A step that keeps what holds of the client, and whose errors are none of the model's own.
abbrev pub Is : (Client → Type 0) → Outcome → Type 0
Is P o = P o.0.0 × (o.1 ≢ some unfinished)

abbrev pub Keeps : (Client → Type 0) → (State → Outcome) → Type 0
Keeps P s = (st : State) → P st.0 → Is P (s st)

or_next-Is :
    (P : Client → Type 0) (o : Outcome) (k : State → Outcome)
    → Is P o
    → Keeps P k
    → Is P (or_next o k)
or_next-Is P (st, some e) k h hk = h
or_next-Is P (st, none) k h hk = hk st h.0

chain-Keeps :
    (P : Client → Type 0) (ss : List (State → Outcome)) → All (Keeps P) ss → Keeps P (chain ss)
unfolding chain
chain-Keeps P [] h st p = (p, cc)
chain-Keeps P (s ∷ ss) (hs, h) st p = or_next-Is P (s st) (chain ss) (hs st p) (chain-Keeps P ss h)

waited-ne :
    (late : ClientError) (w : Waited)
    → late ≢ unfinished
    → w ≢ out_of_fuel
    → waited late w ≢ some unfinished
waited-ne late arrived h k = cc
waited-ne late cancelled h k = cc
waited-ne late timed_out h k = λ e. h (ground arith)
waited-ne late out_of_fuel h k = absurd (k refl)

command_error-ne :
    (args : List Text) (r : Option Text × Text) → command_error args r ≢ some unfinished
command_error-ne args (none, out) = cc
command_error-ne args (some e, out) = cc

module _ (P : Client → Type 0) (h : Host) where
  wait_socket-Keeps : (limit : ℕ) → Keeps P (wait_socket h limit)
  unfolding wait_socket
  wait_socket-Keeps limit (c, m) p = (
    p,
    waited-ne (no_socket (uapi_path h c)) (wait_for (socket_wait h limit m.now) socket_fuel m.now).1
        (λ q. cc) (wait_for-ends (socket_wait h limit m.now) 161 m.now (omega arith)),
  )

  wait_handshake-Keeps : (limit : ℕ) → Keeps P (wait_handshake h limit)
  unfolding wait_handshake
  wait_handshake-Keeps limit (c, m) p = (
    p,
    waited-ne (no_handshake (c.conf.text endpoint))
        (wait_for (handshake_wait h limit m.now) handshake_fuel m.now).1 (λ q. cc)
        (wait_for-ends (handshake_wait h limit m.now) 51 m.now (omega arith)),
  )

  run_ip-Is : (args : List Text) (st : State) → P st.0 → Is P (run_ip h args st)
  run_ip-Is args st p = (p, command_error-ne args (h.command st.1.now (codes "ip" ∷ args)))

  sent-Is :
      (name : Text → ClientError) (o : State × Option Text)
      → ((t : Text) → name t ≢ unfinished)
      → P o.0.0
      → Is P (sent name o)
  sent-Is name (st, none) ne p = (p, cc)
  sent-Is name (st, some e) ne p = (p, λ q. ne e (ground arith))

  send_device-Keeps : (p : Plan) → Keeps P (send_device h p)
  unfolding uapi_cmd
  send_device-Keeps p st q =
      sent-Is bad_device (uapi_cmd h (set_request p.device_body) st) (λ t. cc) q

  send_peer-Keeps : (p : Plan) → Keeps P (send_peer h p)
  unfolding uapi_cmd
  send_peer-Keeps p st q = sent-Is bad_peer (uapi_cmd h (set_request p.peer_body) st) (λ t. cc) q

  none-Is : (st : State) → P st.0 → Is P (st, none)
  none-Is st p = (p, cc)

  some-Is : (e : ClientError) (st : State) → e ≢ unfinished → P st.0 → Is P (st, some e)
  some-Is e st ne p = (p, λ q. ne (ground arith))

  or_retry-Is :
      (e : Option Text) (st : State) (k : Text → Outcome)
      → P st.0
      → ((t : Text) → Is P (k t))
      → Is P (or_retry e st k)
  or_retry-Is none st k p hk = none-Is st p
  or_retry-Is (some e) st k p hk = hk e

  try_targets-Keeps : (ts : List Text) (last : Option Text) → Keeps P (try_targets h ts last)
  unfolding try_targets
  try_targets-Keeps [] none st p = (p, cc)
  try_targets-Keeps [] (some e) st p = (p, cc)
  try_targets-Keeps (t ∷ ts) last st p =
      or_retry-Is (h.dial_error st.1.now t) (act h (dial t) st) _ p
        (λ e. try_targets-Keeps ts (some e) (act h (dial t) st) p)

  module _ (pins : (c : Client) (t : Text) → P c → P (record c { pinned = t })) where
    pin_if-Is : (ep : Text) (o : Outcome) → Is P o → Is P (pin_if ep o)
    pin_if-Is ep (st, some e) i = i
    pin_if-Is ep ((c, m), none) i = (pins c ep i.0, cc)

    pin_with-Is :
        (ep : Text) (r : Option Text × Text) (st : State) → P st.0 → Is P (pin_with h ep r st)
    pin_with-Is ep (some e, out) st p = (p, cc)
    pin_with-Is ep (none, out) st p =
        if-both (Is P) _ _ _ (some-Is _ st (λ q. cc) p) (pin_if-Is ep _ (run_ip-Is _ st p))

    pin-Is : (st : State) → P st.0 → Is P (pin_endpoint_route h st)
    unfolding pin_endpoint_route
    pin-Is st p =
        if-both (Is P) _ _ _ (none-Is st p)
          (pin_with-Is _ (h.command st.1.now _) (act h (run _) st) p)

    pub configure-Keeps : (limit : ℕ) (p : Plan) → Keeps P (chain (configure h limit p))
    configure-Keeps limit p = chain-Keeps P (configure h limit p) (
      wait_socket-Keeps limit,
      (
        send_device-Keeps p,
        (
          send_peer-Keeps p,
          (
            λ st q. run_ip-Is _ st q,
            (
              λ st q. run_ip-Is _ (before_link h st) q,
              (
                λ st q. run_ip-Is _ (before_route h p st) (pin-Is st q).0,
                (λ st q. run_ip-Is _ st q, tt),
              ),
            ),
          ),
        ),
      ),
    )

  pub reach_steps-Keeps : (limit : ℕ) (p : Plan) → Keeps P (chain (reach_steps h limit p))
  unfolding probe_through
  reach_steps-Keeps limit p = chain-Keeps P (reach_steps h limit p) (
    wait_handshake-Keeps limit,
    (λ st q. try_targets-Keeps (probe_targets st.0.probe) none st q, tt),
  )
