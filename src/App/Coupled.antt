-- ===== src/App/Coupled.antt =====
-- cmd/outline-gate/main.go: the switch of the backend, and the tunnel that it leaves behind.
use outline_gate.Prelude.{
  ◌≡◌, ◌⊎◌, inl, inr, refl, sym, ap, false, Option, some, none, if-both, if◌then◌else◌, arith,
}
use mathlib.Core.Path.{subst}
use outline_gate.Prelude.Result.{ok}
use outline_gate.Go.Text.{Text, text_eq}
use outline_gate.Go.Unicode.{Unicode}
use outline_gate.Amnezia.Client
use outline_gate.Amnezia.Client.Up.{up}
use outline_gate.Amnezia.Client.Up.Ends.{IsUp, Ends, up-Ends}
use outline_gate.Tunnel.{Mux, set_backend, backend_of, normalize, backend_outline, backend_amnezia}
use outline_gate.Tunnel.Laws.{normalize-outline, normalize-amnezia}
use outline_gate.App.{Process, Around, Transport, by_amnezia, rebuild_push}
use outline_gate.App.Actions.{
  ActionError, no_backend, mux_set, set_mux, down_if, with_awg, after_up, to_amnezia, to_outline,
  switch_backend,
}

-- The multiplexer has the dialer of the client that there is.
abbrev Linked : Option Client.Client → Option Transport → Type 0
Linked none t = Unit
Linked (some c) t = t ≡ some by_amnezia

abbrev pub IsLinked : {E : Type 0} → Process E → Type 0
IsLinked p = Linked p.awg p.mux.amnezia

-- The multiplexer sends nothing to AmneziaWG, or the tunnel is up.
abbrev IsRunning : Option Client.Client → Type 0
IsRunning none = ⊥
IsRunning (some c) = IsUp c

abbrev pub IsCoupled : {E : Type 0} → Process E → Type 0
IsCoupled p = (text_eq (backend_of p.mux) backend_amnezia ≡ false) ⊎ IsRunning p.awg

set_backend-outline :
    {D W : Type 0} (u : Unicode) (m : Mux D W)
    → set_backend u backend_outline m ≡ ok (record m { backend = backend_outline })
unfolding set_backend
set_backend-outline u m = rw (normalize-outline u) refl

set_backend-amnezia :
    {D W : Type 0} (u : Unicode) (m : Mux D W) (d : D)
    → m.amnezia ≡ some d
    → set_backend u backend_amnezia m ≡ ok (record m { backend = backend_amnezia })
unfolding set_backend
set_backend-amnezia u m d e = rw (normalize-amnezia u, e) refl

module _ {E : Type 0} (a : Around E) where
  abbrev with_backend : Text → Process E → Process E
  with_backend name p = record p { mux = record p.mux { backend = name } }

  set_mux-outline :
      (p : Process E) → set_mux a backend_outline p ≡ (with_backend backend_outline p, none)
  set_mux-outline p = ap (mux_set a p) (set_backend-outline a.unicode p.mux)

  set_mux-amnezia :
      (p : Process E)
      → p.mux.amnezia ≡ some by_amnezia
      → set_mux a backend_amnezia p ≡ (with_backend backend_amnezia p, none)
  set_mux-amnezia p e = ap (mux_set a p) (set_backend-amnezia a.unicode p.mux by_amnezia e)

  -- What a switch to AmneziaWG leaves: a tunnel that is up, or the other backend.
  Leaves : Process E × Option ActionError → Type 0
  Leaves o = IsCoupled o.0 × IsLinked o.0

  after_up-IsCoupled :
      (p : Process E) (o : Client.Outcome)
      → p.mux.amnezia ≡ some by_amnezia
      → Ends o
      → Leaves (after_up a p o)
  unfolding Leaves rebuild_push
  after_up-IsCoupled p (st, some e) l ends = rw (set_mux-outline (with_awg a p st)) (inl refl, l)
  after_up-IsCoupled p (st, none) l (inl (e, live)) =
      rw (set_mux-amnezia (with_awg a p st) l) (inr live, l)
  after_up-IsCoupled p (st, none) l (inr (x, e, n, w)) = absurd (ground arith)

  down_if-IsCoupled :
      (c : Option Client.Client) (q : Process E)
      → text_eq (backend_of q.mux) backend_amnezia ≡ false
      → Linked c q.mux.amnezia
      → q.awg ≡ c
      → Leaves (down_if a c q, none)
  unfolding Leaves
  down_if-IsCoupled none q h l e = (inl h, subst (λ c. Linked c q.mux.amnezia) (sym e) tt)
  down_if-IsCoupled (some c) q h l e = (inl h, l)

  to_outline-IsCoupled : (p : Process E) → IsLinked p → Leaves (to_outline a p)
  unfolding Leaves rebuild_push
  to_outline-IsCoupled p l =
      rw (set_mux-outline p) (down_if-IsCoupled p.awg (with_backend backend_outline p) refl l refl)

  to_amnezia-IsCoupled :
      (c : Option Client.Client) (p : Process E)
      → p.awg ≡ c
      → Leaves (p, none)
      → Leaves (to_amnezia a c p)
  unfolding Leaves
  to_amnezia-IsCoupled none p e i = i
  to_amnezia-IsCoupled (some c) p e i =
      after_up-IsCoupled p (up a.wg (c, p.machine)) (subst (λ x. Linked x p.mux.amnezia) e i.1)
        (up-Ends a.wg (c, p.machine))

  -- Whatever backend is asked for and however the bring-up ends: if the multiplexer sends to AmneziaWG
  -- afterwards, the tunnel is up, provided that this was so before; and the dialer stays that of the client.
  pub switch_backend-IsCoupled :
      (name : Text) (p : Process E)
      → IsCoupled p
      → IsLinked p
      → IsCoupled (switch_backend a name p).0 × IsLinked (switch_backend a name p).0
  unfolding switch_backend Leaves
  switch_backend-IsCoupled name p i l =
      let n = normalize a.unicode name in
      let other : Process E × Option ActionError = (p, some (no_backend n)) in
      if-both Leaves (text_eq n backend_amnezia) (to_amnezia a p.awg p)
        (if text_eq n backend_outline then to_outline a p else other)
        (to_amnezia-IsCoupled p.awg p refl (i, l))
        (if-both Leaves (text_eq n backend_outline) (to_outline a p) other
          (to_outline-IsCoupled p l) (i, l))
