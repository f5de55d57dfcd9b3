-- ===== src/Outline/Ready.antt =====
-- internal/outline/client.go: what a client that counts as ready has, after any sequence of calls. Calls
-- are taken one after the other; between two steps of one call the program may run another.
use mathlib.Core.Path.{subst}
use outline_gate.Prelude.{
  sym, ℕ, zero, suc, ◌+◌, ◌%◌, ◌^◌, ◌≡◌, ◌⊎◌, refl, inl, inr, Bool, true, false, not, ◌&&◌, ◌||◌,
  List, [], ◌∷◌, Option, some, none, arith, if◌then◌else◌, if-both, Bool-cases, ℤ, pos, negsuc,
}
use outline_gate.Go.Text.{Text, codes, text_eq, is_empty, trim_space, has_prefix}
use outline_gate.Outline.{
  Network, Client, unready, ClientError, DialError, Outcome, new_client, apply_expanded, or_down,
  no_dialer, no_expansion, connect_with, connect, is_bad_key, kick_on_error, set_access_key,
  fail_threshold, reached, note_tunnel_failure, is_transport_failure, note_dial_result, dial_by,
  after_slot, dial_context, is_transport, after_probe, probe, after_reprobe, after_connect,
  reconnect, is_dynamic_key, after_refresh, refresh_with, refresh_if_changed, called, probed,
  not_ready,
}

-- The client is not ready, or its dialer is that of the key that the field keeps, which changes only when a
-- dialer is built, and its failures have not reached the threshold.
abbrev pub IsCoherent : Client → Type 0
IsCoherent c =
    (c.ready ≡ false)
    ⊎ ((c.dialer ≡ some c.expanded_key)
        × (reached c.fail_count (fail_threshold c.probe_fails) ≡ false))

none_reached : (t : ℤ) → reached 0 (fail_threshold t) ≡ false
none_reached (pos zero) = refl
none_reached (pos (suc n)) = ground arith
none_reached (negsuc n) = refl

apply_expanded-IsCoherent :
    (n : Network) (key : Text) (c : Client) → IsCoherent c → IsCoherent (apply_expanded n key c).0
unfolding apply_expanded
apply_expanded-IsCoherent n key c h =
    if-both (λ (o : Outcome). IsCoherent o.0) (n.builds key) _ _
      (inr (refl, none_reached c.probe_fails)) h

or_down-IsCoherent : (e : ClientError) (o : Outcome) → IsCoherent o.0 → IsCoherent (or_down e o).0
or_down-IsCoherent e (c, none) h = h
or_down-IsCoherent e (c, some x) h = inl refl

connect_with-IsCoherent :
    (n : Network) (c : Client) (key : Option Text)
    → IsCoherent c
    → IsCoherent (connect_with n c key).0
connect_with-IsCoherent n c (some key) h =
    or_down-IsCoherent no_dialer (apply_expanded n key c) (apply_expanded-IsCoherent n key c h)
connect_with-IsCoherent n c none h =
    if-both (λ (o : Outcome). IsCoherent o.0) (has_prefix c.expanded_key (codes "ss://")) _ _
      (or_down-IsCoherent no_expansion (apply_expanded n c.expanded_key c)
        (apply_expanded-IsCoherent n c.expanded_key c h))
      (inl refl)

connect-IsCoherent : (n : Network) (c : Client) → IsCoherent c → IsCoherent (connect n c).0
unfolding connect
connect-IsCoherent n c h = connect_with-IsCoherent n c (n.expand c.access_key) h

kick_on_error-IsCoherent : (o : Outcome) → IsCoherent o.0 → IsCoherent (kick_on_error o).0
kick_on_error-IsCoherent (c, none) h = h
kick_on_error-IsCoherent (c, some e) h = h

set_access_key-IsCoherent :
    (n : Network) (text : Text) (c : Client) → IsCoherent c → IsCoherent (set_access_key n text c).0
unfolding set_access_key
set_access_key-IsCoherent n text c h =
    let started : Client = record c { access_key = trim_space text; ready = false } in
    if-both (λ (o : Outcome). IsCoherent o.0) (is_bad_key (trim_space text)) _ _ h
      (kick_on_error-IsCoherent (connect n started) (connect-IsCoherent n started (inl refl)))

either_false : (a b : Bool) → (a && b) ≡ false → (b ≡ false) ⊎ (a ≡ false)
either_false a b h = ground arith

note_tunnel_failure-IsCoherent : (c : Client) → IsCoherent c → IsCoherent (note_tunnel_failure c)
unfolding note_tunnel_failure
note_tunnel_failure-IsCoherent c h =
    let n : ℕ = (c.fail_count + 1) % 2 ^ 32 in
    let hit : Bool = reached n (fail_threshold c.probe_fails) in
    let down : Client = record c {
      fail_count = n;
      ready = false;
      woken = true;
      calls = unready ∷ c.calls;
    } in
    let noted : Client = record c { fail_count = n } in
    elim h [
      | inl off ↦ if-both IsCoherent (hit && c.ready) down noted (inl refl) (inl off)
      | inr (d, under) ↦ elim (Bool-cases (hit && c.ready)) [
        | inl b ↦ subst (λ x. IsCoherent (if x then down else noted)) (sym b) (inl refl)
        | inr b ↦
            subst (λ x. IsCoherent (if x then down else noted)) (sym b)
              (elim (either_false hit c.ready b) [ inl off ↦ inl off | inr low ↦ inr (d, low) ])
      ]
    ]

note_dial_result-IsCoherent :
    (a : Option DialError) (c : Client)
    → c.dialer ≡ some c.expanded_key
    → IsCoherent c
    → IsCoherent (note_dial_result a c)
note_dial_result-IsCoherent none c d h = inr (d, none_reached c.probe_fails)
note_dial_result-IsCoherent (some e) c d h =
    if-both IsCoherent (is_transport_failure c e) _ _ (note_tunnel_failure-IsCoherent c h) h

-- A dial; it is by a client that is ready.
dial_by-IsCoherent :
    (n : Network) (address : Text) (c : Client) (d : Option Text)
    → c.ready ≡ true
    → IsCoherent c
    → IsCoherent (dial_by n address c d).0
dial_by-IsCoherent n address c none up h = h
dial_by-IsCoherent n address c (some key) up h = elim h [
  | inl down ↦ absurd cc
  | inr (d, under) ↦ note_dial_result-IsCoherent (n.dial key address) c d (inr (d, under))
]

after_slot-IsCoherent :
    (n : Network) (address : Text) (c : Client) (slot : Option DialError)
    → c.ready ≡ true
    → IsCoherent c
    → IsCoherent (after_slot n address c slot).0
after_slot-IsCoherent n address c (some e) up h = h
after_slot-IsCoherent n address c none up h = dial_by-IsCoherent n address c c.dialer up h

dial_context-IsCoherent :
    (n : Network) (network address : Text) (c : Client)
    → IsCoherent c
    → IsCoherent (dial_context n network address c).0
unfolding dial_context
dial_context-IsCoherent n network address c h =
    if-both (λ (o : Outcome). IsCoherent o.0)
      (not (
        text_eq network (codes "tcp")
        || text_eq network (codes "tcp4")
        || text_eq network (codes "tcp6")))
      _ _ h
      (elim (Bool-cases c.ready) [
        | inl up ↦
            subst (λ (b : Bool). IsCoherent (tried (not b)).0) (sym up)
              (after_slot-IsCoherent n address c n.slot up h)
        | inr off ↦ subst (λ (b : Bool). IsCoherent (tried (not b)).0) (sym off) h
      ])
  where
    tried : Bool → Outcome
    tried b = if b then (c, some not_ready) else after_slot n address c n.slot

after_probe-IsCoherent : (o : Outcome) → IsCoherent o.0 → IsCoherent (after_probe o).0
after_probe-IsCoherent (c, none) h = h
after_probe-IsCoherent (c, some e) h =
    let noted : Client = called (probed false) c in
    if-both IsCoherent (is_transport noted e) _ _ h (note_tunnel_failure-IsCoherent noted h)

probe-IsCoherent : (n : Network) (c : Client) → IsCoherent c → IsCoherent (probe n c).0
unfolding probe
probe-IsCoherent n c h =
    if-both (λ (o : Outcome). IsCoherent o.0) (is_empty c.probe_addr) _ _ h
      (after_probe-IsCoherent (dial_context n (codes "tcp") c.probe_addr c)
        (dial_context-IsCoherent n (codes "tcp") c.probe_addr c h))

after_reprobe-IsCoherent : (o : Outcome) → IsCoherent o.0 → IsCoherent (after_reprobe o).0
after_reprobe-IsCoherent (c, none) h = h
after_reprobe-IsCoherent (c, some e) h = inl refl

after_connect-IsCoherent :
    (n : Network) (o : Outcome) → IsCoherent o.0 → IsCoherent (after_connect n o).0
after_connect-IsCoherent n (c, none) h =
    after_reprobe-IsCoherent (probe n c) (probe-IsCoherent n c h)
after_connect-IsCoherent n (c, some e) h = h

reconnect-IsCoherent : (n : Network) (c : Client) → IsCoherent (reconnect n c).0
unfolding reconnect
reconnect-IsCoherent n c =
    let reset : Client = record c { ready = false; fail_count = 0 } in
    after_connect-IsCoherent n (connect n reset) (connect-IsCoherent n reset (inl refl))

after_refresh-IsCoherent : (o : Outcome) → IsCoherent o.0 → IsCoherent (after_refresh o).0
after_refresh-IsCoherent (c, none) h = h
after_refresh-IsCoherent (c, some e) h = h

refresh_with-IsCoherent :
    (n : Network) (c : Client) (key : Option Text)
    → IsCoherent c
    → IsCoherent (refresh_with n c key).0
refresh_with-IsCoherent n c none h = h
refresh_with-IsCoherent n c (some key) h =
    if-both (λ (o : Client × Bool). IsCoherent o.0) (text_eq key c.expanded_key) _ _ h
      (after_refresh-IsCoherent (apply_expanded n key c) (apply_expanded-IsCoherent n key c h))

-- The calls of a client, each with the network that it meets.
pub data Call : Type 0 where
  connects probes reconnects refreshes : Network → Call
  sets_key : Network → Text → Call
  dials : Network → Text → Text → Call

unfoldable pub step : Client → Call → Client
step c (connects n) = (connect n c).0
step c (probes n) = (probe n c).0
step c (reconnects n) = (reconnect n c).0
step c (refreshes n) = (refresh_if_changed n c).0
step c (sets_key n key) = (set_access_key n key c).0
step c (dials n network address) = (dial_context n network address c).0

unfoldable pub run : Client → List Call → Client
run c [] = c
run c (k ∷ ks) = run (step c k) ks

step-IsCoherent : (c : Client) (k : Call) → IsCoherent c → IsCoherent (step c k)
unfolding step refresh_if_changed
step-IsCoherent c (connects n) h = connect-IsCoherent n c h
step-IsCoherent c (probes n) h = probe-IsCoherent n c h
step-IsCoherent c (reconnects n) h = reconnect-IsCoherent n c
step-IsCoherent c (refreshes n) h =
    if-both (λ (o : Client × Bool). IsCoherent o.0) (is_dynamic_key c.access_key) _ _
      (refresh_with-IsCoherent n c (n.expand c.access_key) h) h
step-IsCoherent c (sets_key n key) h = set_access_key-IsCoherent n key c h
step-IsCoherent c (dials n network address) h = dial_context-IsCoherent n network address c h

run_keeps : (c : Client) (ks : List Call) → IsCoherent c → IsCoherent (run c ks)
unfolding run
run_keeps c [] h = h
run_keeps c (k ∷ ks) h = run_keeps (step c k) ks (step-IsCoherent c k h)

-- After any calls on a new client, one after the other, whatever key service, network and tunnel answer: it
-- is not ready, or it has a dialer, which is the one for the key in the client's field of the expanded key,
-- and its count of failures has not reached the threshold.
pub run-IsCoherent :
    (n : Network) (key probe_addr : Text) (probe_fails : ℤ) (last : Text) (ks : List Call)
    → IsCoherent (run (new_client n key probe_addr probe_fails last) ks)
run-IsCoherent n key probe_addr probe_fails last ks =
    run_keeps (new_client n key probe_addr probe_fails last) ks (inl refl)
