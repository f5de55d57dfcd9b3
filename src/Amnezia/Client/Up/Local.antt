-- ===== src/Amnezia/Client/Up/Local.antt =====
-- internal/amnezia/client.go: which routes the client changes.
use outline_gate.Prelude.{
  ℕ, ◌≡◌, ◌⊎◌, inl, inr, refl, sym, ◌∙◌, Bool, true, false, ◌&&◌, List, [], ◌∷◌, Option, some, none,
  All, arith, if-both,
}
use outline_gate.Prelude.Result.{Result, ok, err}
use outline_gate.Go.Text.{Text, codes, text_eq}
use outline_gate.Go.Ip.{IpAddr, IpNet}
use outline_gate.Go.IpString.{ip_string}
use outline_gate.Amnezia.Conf.{ConfError, endpoint_ip}
use outline_gate.Amnezia.Client.{
  Client, Host, State, Outcome, ClientError, Action, run, start, dial, sig_term, policy_table, act,
  down, drop_rule, unpin, unpin_from, stop_if, after_term, ignored, flush_args, del_link,
  interface_addr, bad_device, bad_peer,
}
use outline_gate.Amnezia.Client.Socket.{uapi_cmd}
use outline_gate.Amnezia.Client.Routes.{
  pin_endpoint_route, pin_with, pin_if, get_args, or_retry, try_targets, probe_targets,
  probe_through,
}
use outline_gate.Amnezia.Client.Up.{
  Plan, up, or_next, chain, wait_socket, wait_handshake, sent, set_request, configure,
  connect_steps, conclude, started, start_args, run_daemon, with_plan, make_plan,
}

-- The server's address, as a destination.
abbrev endpoint_text : Client → Text
endpoint_text c = ip_string (endpoint_ip c.conf)

-- Whether a command ends in "table 51820".
abbrev in_table : List Text → Bool
in_table (a ∷ b ∷ []) = text_eq a (codes "table") && text_eq b policy_table
in_table (a ∷ b ∷ c ∷ r) = in_table (b ∷ c ∷ r)
in_table _ = false

-- A command that changes routes is about the policy table, or about the route to one address.
abbrev pub IsLocal : Text → Action → Type 0
IsLocal ep (run (p ∷ q ∷ verb ∷ dest ∷ rest)) =
    (text_eq q (codes "route") ≡ false) ⊎ (in_table (dest ∷ rest) ≡ true) ⊎ (dest ≡ ep)
IsLocal ep a = Unit

-- All that was done is local to the server's address, and so is the route that is to be removed.
abbrev pub IsContained : State → Type 0
IsContained st =
    All (IsLocal (endpoint_text st.0)) st.1.done
    × ((st.0.pinned ≡ []) ⊎ (st.0.pinned ≡ endpoint_text st.0))

Keeps : (State → Outcome) → Type 0
Keeps s = (st : State) → IsContained st → IsContained (s st).0

module _ (h : Host) where
  drop_rule-IsContained :
      (r : Result ConfError (IpAddr × IpNet)) (st : State)
      → IsContained st
      → IsContained (drop_rule h r st)
  drop_rule-IsContained (err e) st i = i
  drop_rule-IsContained (ok w) st i = ((inl refl, i.0), i.1)

  unpin-IsContained :
      (t : Text) (st : State) → st.0.pinned ≡ t → IsContained st → IsContained (unpin_from h t st)
  unpin-IsContained [] st e i = i
  unpin-IsContained (x ∷ t) st e (i, inl k) = absurd (ground arith)
  unpin-IsContained (x ∷ t) st e (i, inr k) = ((inr (inr (sym e ∙ k)), i), inl refl)

  after_term-IsContained :
      (e : Option (Option Text)) (st : State) → IsContained st → IsContained (after_term h e st).0
  after_term-IsContained none st i = ((tt, i.0), i.1)
  after_term-IsContained (some e) st i = i

  stop_if-IsContained : (b : Bool) (st : State) → IsContained st → IsContained (stop_if h b st).0
  stop_if-IsContained false st i = i
  stop_if-IsContained true st i =
      after_term-IsContained (h.exits st.1.now) (act h sig_term st) ((tt, i.0), i.1)

  pub down-IsContained : (st : State) → IsContained st → IsContained (down h st).0
  unfolding down
  down-IsContained (c, m) i =
      let quiet : Client = record c { ready = false; dialer = none } in
      let dropped = drop_rule-IsContained (interface_addr c.conf) (quiet, m) i in
      let st : State = drop_rule h (interface_addr c.conf) (quiet, m) in
      let unpinned =
        unpin-IsContained st.0.pinned (ignored h flush_args st) refl
          ((inr (inl refl), dropped.0), dropped.1) in
      let stopped =
        stop_if-IsContained (unpin h (ignored h flush_args st)).0.daemon
          (unpin h (ignored h flush_args st)) unpinned in
      ((inl refl, stopped.0), stopped.1)

  or_next-IsContained :
      (o : Outcome) (k : State → Outcome) → IsContained o.0 → Keeps k → IsContained (or_next o k).0
  unfolding Keeps
  or_next-IsContained (st, none) k i hk = hk st i
  or_next-IsContained (st, some e) k i hk = i

  chain-Keeps : (ss : List (State → Outcome)) → All Keeps ss → Keeps (chain ss)
  unfolding chain Keeps
  chain-Keeps [] hs st i = i
  chain-Keeps (s ∷ ss) (k, hs) st i =
      or_next-IsContained (s st) (chain ss) (k st i) (chain-Keeps ss hs)

  sent-IsContained :
      (name : Text → ClientError) (o : State × Option Text)
      → IsContained o.0
      → IsContained (sent name o).0
  sent-IsContained name (st, none) i = i
  sent-IsContained name (st, some e) i = i

  or_retry-IsContained :
      (e : Option Text) (st : State) (k : Text → Outcome)
      → IsContained st
      → ((t : Text) → IsContained (k t).0)
      → IsContained (or_retry e st k).0
  or_retry-IsContained none st k i hk = i
  or_retry-IsContained (some e) st k i hk = hk e

  try_targets-IsContained :
      (ts : List Text) (last : Option Text) (st : State)
      → IsContained st
      → IsContained (try_targets h ts last st).0
  unfolding try_targets
  try_targets-IsContained [] last st i = i
  try_targets-IsContained (t ∷ ts) last st i =
      or_retry-IsContained (h.dial_error st.1.now t) (act h (dial t) st) _ ((tt, i.0), i.1)
        (λ e. try_targets-IsContained ts (some e) (act h (dial t) st) ((tt, i.0), i.1))

  pin_if-IsContained :
      (ep : Text) (o : Outcome)
      → ep ≡ endpoint_text o.0.0
      → IsContained o.0
      → IsContained (pin_if ep o).0
  pin_if-IsContained ep (st, some e) k i = i
  pin_if-IsContained ep ((c, m), none) k i = (i.0, inr k)

  pin_with-IsContained :
      (ep : Text) (r : Option Text × Text) (st : State)
      → ep ≡ endpoint_text st.0
      → IsContained st
      → IsContained (pin_with h ep r st).0
  pin_with-IsContained ep (some e, out) st k i = i
  pin_with-IsContained ep (none, out) st k i =
      if-both (λ (o : Outcome). IsContained o.0) _ _ _ i
        (pin_if-IsContained ep _ k ((inr (inr k), i.0), i.1))

  pin-IsContained : (st : State) → IsContained st → IsContained (pin_endpoint_route h st).0
  unfolding pin_endpoint_route
  pin-IsContained st i =
      let ep = endpoint_text st.0 in
      if-both (λ (o : Outcome). IsContained o.0) _ _ _ i
        (pin_with-IsContained ep (h.command st.1.now (get_args ep)) (act h (run (get_args ep)) st)
          refl ((inl refl, i.0), i.1))

  configure-Keeps : (limit : ℕ) (p : Plan) → Keeps (chain (configure h limit p))
  unfolding Keeps wait_socket uapi_cmd
  configure-Keeps limit p = chain-Keeps (configure h limit p) (
    λ st i. i,
    (
      λ st i.
          sent-IsContained bad_device (uapi_cmd h (set_request p.device_body) st) ((tt, i.0), i.1),
      (
        λ st i.
            sent-IsContained bad_peer (uapi_cmd h (set_request p.peer_body) st) ((tt, i.0), i.1),
        (
          λ st i. ((inl refl, i.0), i.1),
          (
            λ st i. ((inl refl, (inl refl, (tt, i.0))), i.1),
            (
              λ st i. let w = pin-IsContained st i in ((inr (inl refl), (inl refl, w.0)), w.1),
              (λ st i. ((inl refl, i.0), i.1), tt),
            ),
          ),
        ),
      ),
    ),
  )

  connect_steps-Keeps : (limit : ℕ) (p : Plan) → Keeps (chain (connect_steps h limit p))
  unfolding Keeps wait_handshake probe_through
  connect_steps-Keeps limit p = chain-Keeps (connect_steps h limit p) (
    λ st i. i,
    (λ st i. i, (λ st i. try_targets-IsContained (probe_targets st.0.probe) none st i, tt)),
  )

  conclude-IsContained : (o : Outcome) → IsContained o.0 → IsContained (conclude h o).0
  conclude-IsContained (st, some e) i = down-IsContained st i
  conclude-IsContained ((c, m), none) i = i

  run_daemon-IsContained :
      (p : Plan) (limit : ℕ) (e : Option Text) (st : State)
      → IsContained st
      → IsContained (run_daemon h p limit e st).0
  unfolding Keeps
  run_daemon-IsContained p limit (some e) st i = i
  run_daemon-IsContained p limit none (c, m) i = conclude-IsContained _ (
      or_next-IsContained (chain (configure h limit p) (started (c, m)))
        (chain (connect_steps h limit p)) (configure-Keeps limit p (started (c, m)) i)
        (connect_steps-Keeps limit p))

  with_plan-IsContained :
      (st : State) (r : Result ClientError Plan) → IsContained st → IsContained (with_plan h st r).0
  with_plan-IsContained st (err e) i = i
  with_plan-IsContained st (ok p) i =
      run_daemon-IsContained p _ (h.start_error (del_link h st).1.now)
        (act h (start (start_args p (del_link h st))) (del_link h st)) ((tt, (inl refl, i.0)), i.1)

  -- Every command of `Up` that changes routes is about the policy table or about the route to the server's
  -- own address, whatever the system answers.
  pub up-IsContained : (st : State) → IsContained st → IsContained (up h st).0
  unfolding up
  up-IsContained st i =
      with_plan-IsContained (down h st).0 (make_plan h (down h st).0.0) (down-IsContained st i)
