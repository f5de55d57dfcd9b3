-- ===== src/Amnezia/Client/Up/Ends.antt =====
-- internal/amnezia/client.go: what `Up` and `Down` leave of the client, on every path.
use outline_gate.Prelude.{
  ℕ, ◌≡◌, ◌≢◌, ◌⊎◌, inl, inr, refl, ap, ◌∙◌, Bool, true, false, List, [], ◌∷◌, Option, some, none,
}
use outline_gate.Prelude.Result.{Result, ok, err}
use outline_gate.Go.Text.{Text}
use outline_gate.Go.Ip.{IpAddr, IpNet}
use outline_gate.Amnezia.Conf.{ConfError}
use outline_gate.Amnezia.Client.{
  Action, Bound, Client, Host, State, Outcome, ClientError, unfinished, act, down, drop_rule, unpin,
  unpin_from, stop_if, sig_term, after_term, ignored, flush_args, del_link, interface_addr,
}
use outline_gate.Amnezia.Client.Up.{
  Plan, up, or_next, chain, set_dialer, configure, reach_steps, connect_steps, conclude, run_daemon,
  with_plan, with_bin, with_device, with_peer, with_addr, start_args, started, make_plan,
}
use outline_gate.Amnezia.Client.{wg_bin, not_started, start}
use outline_gate.Amnezia.Uapi.{uapi_device, uapi_peer}
use outline_gate.Amnezia.Client.Up.Swept.{IsSwept, down-IsSwept, again-IsSwept}
use outline_gate.Amnezia.Client.Up.Steps.{Is, configure-Keeps, reach_steps-Keeps}

-- The client itself holds nothing of the tunnel: no dialer, no daemon, no route to the server.
abbrev pub IsIdle : Client → Type 0
IsIdle c = (c.ready ≡ false) × (c.dialer ≡ none) × (c.daemon ≡ false) × (c.pinned ≡ [])

-- The tunnel can be dialled, and the daemon runs.
abbrev pub IsUp : Client → Type 0
IsUp c = (c.ready ≡ true) × ((b : Bound) × (c.dialer ≡ some b)) × (c.daemon ≡ true)

abbrev IsQuiet : Client → Type 0
IsQuiet c = (c.ready ≡ false) × (c.dialer ≡ none)

drop_rule-IsQuiet :
    (h : Host) (r : Result ConfError (IpAddr × IpNet)) (st : State)
    → IsQuiet st.0
    → IsQuiet (drop_rule h r st).0
drop_rule-IsQuiet h (err e) st q = q
drop_rule-IsQuiet h (ok w) st q = q

unpin-IsQuiet :
    (h : Host) (t : Text) (st : State)
    → st.0.pinned ≡ t
    → IsQuiet st.0
    → IsQuiet (unpin_from h t st).0 × ((unpin_from h t st).0.pinned ≡ [])
unpin-IsQuiet h [] st e q = (q, e)
unpin-IsQuiet h (x ∷ t) st e q = (q, refl)

after_term-client :
    (h : Host) (e : Option (Option Text)) (st : State) → (after_term h e st).0.0 ≡ st.0
after_term-client h none st = refl
after_term-client h (some e) st = refl

stop_if-IsIdle :
    (h : Host) (b : Bool) (st : State)
    → st.0.daemon ≡ b
    → IsQuiet st.0
    → st.0.pinned ≡ []
    → IsIdle (stop_if h b st).0.0
stop_if-IsIdle h false st e q p = (q.0, q.1, e, p)
stop_if-IsIdle h true st e q p =
    let same = after_term-client h (h.exits st.1.now) (act h sig_term st) in
    (ap (λ c. c.ready) same ∙ q.0, ap (λ c. c.dialer) same ∙ q.1, refl, ap (λ c. c.pinned) same ∙ p)

pub down-IsIdle : (h : Host) (st : State) → IsIdle (down h st).0.0
unfolding down
down-IsIdle h (c, m) =
    let quiet : Client = record c { ready = false; dialer = none } in
    let dropped = drop_rule-IsQuiet h (interface_addr c.conf) (quiet, m) (refl, refl) in
    let unpinned =
      unpin-IsQuiet h _ (ignored h flush_args (drop_rule h (interface_addr c.conf) (quiet, m))) refl
        dropped in
    stop_if-IsIdle h _
      (unpin h (ignored h flush_args (drop_rule h (interface_addr c.conf) (quiet, m)))) refl
      unpinned.0 unpinned.1

-- Nothing of the tunnel is left, in the client or in the system.
abbrev pub IsDown : State → Type 0
IsDown st = IsIdle st.0 × IsSwept st.0 st.1.done

-- The same, but for a start of the daemon that failed.
abbrev pub IsAborted : ClientError → State → Type 0
IsAborted e st =
    IsIdle st.0
    × ((reason : Text) × (e ≡ not_started reason))
    × ((argv : List Text) × (older : List Action) × (st.1.done ≡ start argv ∷ older)
        × IsSwept st.0 older)

abbrev pub Ends : Outcome → Type 0
Ends o =
    ((o.1 ≡ none) × IsUp o.0.0)
    ⊎ ((e : ClientError) × (o.1 ≡ some e) × (e ≢ unfinished) × (IsDown o.0 ⊎ IsAborted e o.0))

down-IsDown : (h : Host) (st : State) → IsDown (down h st).0
down-IsDown h st = (down-IsIdle h st, down-IsSwept h st)

failed : (st : State) (e : ClientError) → e ≢ unfinished → IsDown st → Ends (st, some e)
failed st e ne d = inr (e, refl, ne, inl d)

-- A tunnel that may be declared ready.
abbrev IsBound : Client → Type 0
IsBound c = ((b : Bound) × (c.dialer ≡ some b)) × (c.daemon ≡ true)

abbrev Settles : Outcome → Type 0
Settles (st, none) = IsBound st.0
Settles (st, some e) = e ≢ unfinished

conclude-Ends : (h : Host) (o : Outcome) → Settles o → Ends (conclude h o)
conclude-Ends h (st, some e) ne = failed (down h st).0 e ne (down-IsDown h st)
conclude-Ends h (st, none) b = inl (refl, (refl, b.0, b.1))

Is-Settles : (o : Outcome) → Is IsBound o → Settles o
Is-Settles (st, none) i = i.0
Is-Settles (st, some e) i = λ q. i.1 (ap some q)

-- The steps in front of the dialer keep the daemon.
abbrev Runs : Client → Type 0
Runs c = c.daemon ≡ true

or_next-Settles :
    (o : Outcome) (k : State → Outcome)
    → Is Runs o
    → ((st : State) → Runs st.0 → Settles (k st))
    → Settles (or_next o k)
or_next-Settles (st, none) k i hk = hk st i.0
or_next-Settles (st, some e) k i hk = λ q. i.1 (ap some q)

abbrev Named : Result ClientError Plan → Type 0
Named (err e) = e ≢ unfinished
Named (ok p) = Unit

module _ (h : Host) where
  connect_steps-Settles :
      (limit : ℕ) (p : Plan) (st : State) → Runs st.0 → Settles (chain (connect_steps h limit p) st)
  unfolding chain
  connect_steps-Settles limit p (c, m) r =
      Is-Settles (chain (reach_steps h limit p) bound)
        (reach_steps-Keeps IsBound h limit p bound ((_, refl), r))
    where
      bound : State
      bound = (set_dialer p (c, m)).0

  run_daemon-Ends :
      (p : Plan) (limit : ℕ) (argv : List Text) (e : Option Text) (st : State)
      → IsDown st
      → Ends (run_daemon h p limit e (act h (start argv) st))
  run_daemon-Ends p limit argv (some e) st d =
      inr (not_started e, refl, (λ q. cc), inr (d.0, (e, refl), (argv, st.1.done, refl, d.1)))
  run_daemon-Ends p limit argv none st d =
      let s : State = started (act h (start argv) st) in
      conclude-Ends h _ (
        or_next-Settles (chain (configure h limit p) s) (chain (connect_steps h limit p))
          (configure-Keeps Runs h (λ c t r. r) limit p s refl) (connect_steps-Settles limit p))

  with_plan-Ends :
      (st : State) (r : Result ClientError Plan) → IsDown st → Named r → Ends (with_plan h st r)
  with_plan-Ends st (err e) d ne = failed st e ne d
  with_plan-Ends st (ok p) d ne =
      run_daemon-Ends p _ (start_args p (del_link h st)) (h.start_error (del_link h st).1.now)
        (del_link h st) (d.0, again-IsSwept h st d.1)

  -- The plan is refused with an error of the source.
  make_plan-Named : (c : Client) → Named (make_plan h c)
  unfolding make_plan
  make_plan-Named c = elim (wg_bin h c) as (λ b. Named (with_bin c.conf b)) [
    | none ↦ λ q. cc
    | some bin ↦ elim (uapi_device c.conf) as (λ d. Named (with_device c.conf bin d)) [
      | err e ↦ λ q. cc
      | ok dev ↦ elim (uapi_peer c.conf) as (λ d. Named (with_peer c.conf bin dev d)) [
        | err e ↦ λ q. cc
        | ok peer ↦ elim (interface_addr c.conf) as (λ d. Named (with_addr bin dev peer d)) [
          | err e ↦ λ q. cc
          | ok w ↦ tt
        ]
      ]
    ]
  ]

  pub up-Ends : (st : State) → Ends (up h st)
  unfolding up
  up-Ends st =
      with_plan-Ends (down h st).0 (make_plan h (down h st).0.0) (down-IsDown h st)
        (make_plan-Named (down h st).0.0)
