-- ===== src/Proxy/Socks/Outcomes.antt =====
-- internal/proxy/socks5.go, internal/proxy/http_connect.go: what a connection may lead to, whatever the
-- client sends.
use outline_gate.Prelude.{
  ℕ, zero, suc, ◌+◌, ◌*◌, ◌≤◌, ◌≡◌, refl, inl, inr, true, false, not, ◌&&◌, List, [], ◌∷◌, ◌++◌,
  Option, some, none, arith, ltb, ◌==◌, if◌then◌else◌, if-both, Bool-cases, length, drop, All, ℤ,
  pos, negsuc,
}
use outline_gate.Go.Text.{Text, codes, text_eq}
use outline_gate.Go.Ip.{Bytes}
use outline_gate.Go.IpString.{itoa}
use outline_gate.Go.HostPort.{join_host_port}
use outline_gate.Proxy.Conn.{
  Action, writes, dials_tunnel, dials_direct, records, relays, Server, Client, Voice, ConnEvent,
  connect, ip_allowed, match_checker, dial_target, direct_dial, tunnel_dial, record_event,
  after_dial, event_of, DialOutcome,
}
use outline_gate.Proxy.Http.{
  Parser, HttpRequest, handle_http, answer_request, connect_to, shorten, http_voice,
}
use outline_gate.Proxy.Socks.{
  handle, serve, serve_greeting, serve_request, connect_host, read_host, HostRead, found, gone,
  refused, socks_voice,
}

-- A property of what is done holds of every connection if it holds of nothing, of one answer, of what is
-- done after a greeting, and of every `connect`.
module _ (P : List Action → Type 0) (silent : P []) (answered : (b : Bytes) → P (writes b ∷ []))
    (greeted : (b : Bytes) (l : List Action) → P l → P (writes b ∷ l)) (s : Server) (c : Client)
    (connected : (v : Voice) (host : Text) (port : ℕ) → P (connect v s c host port)) where
  connect_to-lifts : (host : Text) (port : Option ℤ) → P (connect_to s c host port)
  connect_to-lifts host none = answered _
  connect_to-lifts host (some (pos zero)) = answered _
  connect_to-lifts host (some (pos (suc n))) = connected http_voice (shorten host) (suc n)
  connect_to-lifts host (some (negsuc n)) = answered _

  answer_request-lifts : (r : HttpRequest) → P (answer_request s c r)
  answer_request-lifts r =
      if-both P (not (text_eq r.method (codes "CONNECT"))) _ _ (answered _) (connect_to-lifts _ _)

  handle_http-lifts : (read : Parser) → P (handle_http read s c)
  unfolding handle_http
  handle_http-lifts read = parsed (read c.input)
    where
      parsed : (o : Option HttpRequest) → P (elim o [ none ↦ [] | some r ↦ answer_request s c r ])
      parsed none = silent
      parsed (some r) = answer_request-lifts r

  connect_host-lifts : (h : HostRead) → P (connect_host s c h)
  connect_host-lifts gone = silent
  connect_host-lifts refused = answered _
  connect_host-lifts (found host []) = silent
  connect_host-lifts (found host (p ∷ [])) = silent
  connect_host-lifts (found host (p ∷ q ∷ rest)) = connected socks_voice host (p * 256 + q)

  serve_request-lifts : (input : Bytes) → P (serve_request s c input)
  unfolding serve_request
  serve_request-lifts [] = silent
  serve_request-lifts (a ∷ []) = silent
  serve_request-lifts (a ∷ b ∷ []) = silent
  serve_request-lifts (a ∷ b ∷ d ∷ []) = silent
  serve_request-lifts (a ∷ b ∷ d ∷ kind ∷ rest) =
      if-both P (not (a == 5 && b == 1)) _ _ (answered _) (connect_host-lifts (read_host kind rest))

  serve_greeting-lifts : (input : Bytes) → P (serve_greeting s c input)
  serve_greeting-lifts [] = silent
  serve_greeting-lifts (a ∷ []) = silent
  serve_greeting-lifts (a ∷ n ∷ rest) =
      if-both P (ltb (length rest) n) _ _ silent
        (greeted _ _ (if-both P c.greeting_fails _ _ silent (serve_request-lifts (drop n rest))))

  serve-lifts : (read : Parser) (input : Bytes) → P (serve read s c input)
  serve-lifts read [] = silent
  serve-lifts read (a ∷ input) =
      if-both P (a == 5) _ _ (serve_greeting-lifts (a ∷ input)) (handle_http-lifts read)

  handle-lifts : (read : Parser) → P (handle read s c)
  unfolding handle
  handle-lifts read = if-both P (ip_allowed c.ip s.allow) _ _ (serve-lifts read c.input) silent

-- Whether the lists let a dial go out: to a host that is not blocked, past the tunnel exactly if the
-- bypass matches it.
abbrev pub Permits : Server → Action → Type 0
Permits s (dials_tunnel t) =
    (host : Text) × (port : ℕ) × (t ≡ join_host_port host (itoa port))
    × ((match_checker s.block host).0 ≡ false)
    × ((match_checker s.bypass host).0 ≡ false)
Permits s (dials_direct t) =
    (host : Text) × (port : ℕ) × (t ≡ join_host_port host (itoa port))
    × ((match_checker s.block host).0 ≡ false)
    × ((match_checker s.bypass host).0 ≡ true)
Permits s _ = Unit {0}

abbrev count : (Action → ℕ) → List Action → ℕ
count f [] = 0
count f (a ∷ l) = f a + count f l

abbrev one_dial : Action → ℕ
one_dial (dials_tunnel t) = 1
one_dial (dials_direct t) = 1
one_dial _ = 0

abbrev one_event : Action → ℕ
one_event (records e) = 1
one_event _ = 0

abbrev one_success : Action → ℕ
one_success (records e) = if e.ok then 1 else 0
one_success _ = 0

abbrev one_relay : Action → ℕ
one_relay relays = 1
one_relay _ = 0

-- At most one dial, one event and one relay; with a log, a dial never goes without an event, and a relay
-- never without the event of a success.
pub record IsTidy (s : Server) (l : List Action) : Type 0 where
  pub one_dial_at_most : count one_dial l ≤ 1
  pub one_event_at_most : count one_event l ≤ 1
  pub relay_dialed : count one_relay l ≤ count one_dial l
  pub dial_logged : s.logs ≡ true → count one_dial l ≤ count one_event l
  pub relay_logged : s.logs ≡ true → count one_relay l ≤ count one_success l
  pub success_dialed : count one_success l ≤ count one_dial l

module _ (v : Voice) (s : Server) (c : Client) (host : Text) (port : ℕ) where
  abbrev target : Text
  target = join_host_port host (itoa port)

  recorded-Permits :
      (e : ConnEvent) (l : List Action)
      → All (Permits s) l
      → All (Permits s) (record_event s e ++ l)
  recorded-Permits e l h = if-both (λ r. All (Permits s) (r ++ l)) s.logs _ _ (tt, h) h

  after_dial-Permits : (o : DialOutcome) → All (Permits s) (after_dial v s c host port o)
  after_dial-Permits o = answered o.dialed.error
    where
      answered :
          (e : Option Text)
          → All (Permits s) (elim e [
            | some e ↦
                record_event s (event_of v c host port o.via o.rule false e o.dialed.duration_ms)
                ++ writes v.failed ∷ []
            | none ↦
                record_event s (event_of v c host port o.via o.rule true [] o.dialed.duration_ms)
                ++ (writes v.connected ∷ (if c.answer_fails then [] else relays ∷ []))
          ])
      answered (some e) = recorded-Permits _ _ (tt, tt)
      answered none =
          recorded-Permits _ _ (tt, if-both (All (Permits s)) c.answer_fails _ _ tt (tt, tt))

  dial_target-Permits :
      (match_checker s.block host).0 ≡ false → Permits s (dial_target s host target).dial
  dial_target-Permits open_host = elim (Bool-cases (match_checker s.bypass host).0) [
    | inl past ↦ rw past (host, port, refl, open_host, past)
    | inr through ↦ rw through (host, port, refl, open_host, through)
  ]

  connect-Permits : All (Permits s) (connect v s c host port)
  unfolding connect
  connect-Permits = elim (Bool-cases (match_checker s.block host).0) [
    | inl blocked ↦ rw blocked (recorded-Permits _ _ (tt, tt))
    | inr open_host ↦
        rw open_host (dial_target-Permits open_host, after_dial-Permits (dial_target s host target))
  ]

  -- What follows a dial, counted.
  after_dial-IsTidy :
      (o : DialOutcome) (d : Action)
      → one_dial d ≡ 1
      → one_event d ≡ 0
      → one_relay d ≡ 0
      → one_success d ≡ 0
      → IsTidy s (d ∷ after_dial v s c host port o)
  after_dial-IsTidy o d = answered o.dialed.error
    where
      answered :
          (e : Option Text)
          → one_dial d ≡ 1
          → one_event d ≡ 0
          → one_relay d ≡ 0
          → one_success d ≡ 0
          → IsTidy s (
              d ∷ (elim e [
                | some e ↦
                    record_event s
                      (event_of v c host port o.via o.rule false e o.dialed.duration_ms)
                    ++ writes v.failed ∷ []
                | none ↦
                    record_event s
                      (event_of v c host port o.via o.rule true [] o.dialed.duration_ms)
                    ++ (writes v.connected ∷ (if c.answer_fails then [] else relays ∷ []))
              ]))
      answered (some e) p q r t = ground arith
      answered none p q r t = ground arith

  connect-IsTidy : IsTidy s (connect v s c host port)
  unfolding connect
  connect-IsTidy = elim (Bool-cases (match_checker s.block host).0) [
    | inl blocked ↦ rw blocked (ground arith)
    | inr open_host ↦ rw open_host (elim (Bool-cases (match_checker s.bypass host).0) [
      | inl past ↦ rw past (
          after_dial-IsTidy (direct_dial s (match_checker s.bypass host).1 target)
            (dials_direct target) refl refl refl refl)
      | inr through ↦
          rw through
            (after_dial-IsTidy (tunnel_dial s target) (dials_tunnel target) refl refl refl refl)
    ])
  ]

-- Whatever a client sends, in SOCKS5 or in HTTP: each dial is for a host that the block list does not
-- match, and goes past the tunnel exactly if the bypass matches that host.
pub handle-Permits : (read : Parser) (s : Server) (c : Client) → All (Permits s) (handle read s c)
handle-Permits read s c =
    handle-lifts (All (Permits s)) tt (λ b. (tt, tt)) (λ b l h. (tt, h)) s c
      (λ v host port. connect-Permits v s c host port) read

-- Whatever a client sends: at most one dial, one event and one relay; no relay and no success without a
-- dial; and with a log, no dial without an event, and no relay without the event of a success.
pub handle-IsTidy : (read : Parser) (s : Server) (c : Client) → IsTidy s (handle read s c)
handle-IsTidy read s c =
    handle-lifts (IsTidy s) (ground arith) (λ b. ground arith)
      (λ b l h. record {
        one_dial_at_most = omega (arith, h.one_dial_at_most);
        one_event_at_most = omega (arith, h.one_event_at_most);
        relay_dialed = omega (arith, h.relay_dialed);
        dial_logged = λ e. omega (arith, h.dial_logged e);
        relay_logged = λ e. omega (arith, h.relay_logged e);
        success_dialed = omega (arith, h.success_dialed);
      })
      s c (λ v host port. connect-IsTidy v s c host port) read
