-- ===== src/Metrics/Totals.antt =====
-- internal/metrics/metrics.go: the counters of connections after any sequence of them. Concurrent calls
-- add in some order, since each addition is atomic.
use outline_gate.Prelude.{
  ℕ, ◌+◌, ◌%◌, ◌^◌, ◌≡◌, refl, ◌∙◌, inl, inr, Bool, not, ◌&&◌, List, [], ◌∷◌, arith, if◌then◌else◌,
  Bool-cases,
}
use outline_gate.Go.Text.{Text, codes, text_eq}
use outline_gate.Metrics.{Registry, new_registry, increase, observe_connection}

-- The arguments of `ObserveConnection`.
pub record Seen : Type 0 where
  pub proto : Text
  pub via : Text
  pub good : Bool

-- The registry after some connections, the last first.
unfoldable pub observed : List Seen → Registry
observed [] = new_registry
observed (e ∷ es) = observe_connection e.proto e.via e.good (observed es)

-- How many connections are of a kind.
abbrev pub count : (Seen → Bool) → List Seen → ℕ
count p [] = 0
count p (e ∷ es) = let rest = count p es in if p e then rest + 1 else rest

abbrev pub went_direct : Seen → Bool
went_direct e = text_eq e.via (codes "direct")

abbrev pub was_dropped : Seen → Bool
was_dropped e = not (went_direct e) && text_eq e.via (codes "drop")

abbrev pub went_tunnel : Seen → Bool
went_tunnel e = not (went_direct e) && not (text_eq e.via (codes "drop"))

-- The counters agree with the sequence, up to the wrap-around.
pub record Agrees (es : List Seen) (r : Registry) : Type 0 where
  pub direct_ok : r.direct_ok ≡ count (λ e. went_direct e && e.good) es % 2 ^ 64
  pub direct_fail : r.direct_fail ≡ count (λ e. went_direct e && not e.good) es % 2 ^ 64
  pub dropped : r.dropped ≡ count was_dropped es % 2 ^ 64
  pub tunnel_ok : r.tunnel_ok ≡ count (λ e. went_tunnel e && e.good) es % 2 ^ 64
  pub tunnel_fail : r.tunnel_fail ≡ count (λ e. went_tunnel e && not e.good) es % 2 ^ 64
  pub socks : r.socks_accept ≡ count (λ e. text_eq e.proto (codes "socks")) es % 2 ^ 64

-- A counter of a kind after one more connection.
counted :
    (p : Seen → Bool) (e : Seen) (es : List Seen) (n : ℕ)
    → n ≡ count p es % 2 ^ 64
    → (if p e then increase n else n) ≡ count p (e ∷ es) % 2 ^ 64
counted p e es n h = elim (Bool-cases (p e)) [ inl k ↦ rw k (omega (arith, h)) | inr k ↦ rw k h ]

-- What one connection does to each counter.
record Moves (e : Seen) (r after : Registry) : Type 0 where
  direct_ok :
      after.direct_ok ≡ (if went_direct e && e.good then increase r.direct_ok else r.direct_ok)
  direct_fail :
      after.direct_fail
      ≡ (if went_direct e && not e.good then increase r.direct_fail else r.direct_fail)
  dropped : after.dropped ≡ (if was_dropped e then increase r.dropped else r.dropped)
  tunnel_ok :
      after.tunnel_ok ≡ (if went_tunnel e && e.good then increase r.tunnel_ok else r.tunnel_ok)
  tunnel_fail :
      after.tunnel_fail
      ≡ (if went_tunnel e && not e.good then increase r.tunnel_fail else r.tunnel_fail)
  socks :
      after.socks_accept
      ≡ (if text_eq e.proto (codes "socks") then increase r.socks_accept else r.socks_accept)

observe_connection-Moves :
    (e : Seen) (r : Registry) → Moves e r (observe_connection e.proto e.via e.good r)
unfolding observe_connection
observe_connection-Moves e r = record {
  direct_ok = ground arith;
  direct_fail = ground arith;
  dropped = ground arith;
  tunnel_ok = ground arith;
  tunnel_fail = ground arith;
  socks = ground arith;
}

-- After any sequence of connections, each counter of their outcomes, and that of the clients of SOCKS, is
-- the number of connections of its kind, up to the wrap-around at 2 ^ 64.
pub observed-Agrees : (es : List Seen) → Agrees es (observed es)
unfolding observed
observed-Agrees [] = record {
  direct_ok = refl;
  direct_fail = refl;
  dropped = refl;
  tunnel_ok = refl;
  tunnel_fail = refl;
  socks = refl;
}
observed-Agrees (e ∷ es) =
    let i = observed-Agrees es in
    let m = observe_connection-Moves e (observed es) in
    record {
      direct_ok =
          m.direct_ok
          ∙ counted (λ e. went_direct e && e.good) e es (observed es).direct_ok i.direct_ok;
      direct_fail =
          m.direct_fail
          ∙ counted (λ e. went_direct e && not e.good) e es (observed es).direct_fail i.direct_fail;
      dropped = m.dropped ∙ counted (λ e. was_dropped e) e es (observed es).dropped i.dropped;
      tunnel_ok =
          m.tunnel_ok
          ∙ counted (λ e. went_tunnel e && e.good) e es (observed es).tunnel_ok i.tunnel_ok;
      tunnel_fail =
          m.tunnel_fail
          ∙ counted (λ e. went_tunnel e && not e.good) e es (observed es).tunnel_fail i.tunnel_fail;
      socks =
          m.socks
          ∙ counted (λ e. text_eq e.proto (codes "socks")) e es (observed es).socks_accept i.socks;
    }
