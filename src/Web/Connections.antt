-- ===== src/Web/Connections.antt =====
-- internal/webui/connections.go: the log of connections, and the stream of its events. What the `select` of
-- the stream finds is an argument, and so is how many events can be written until the client is gone.
use outline_gate.Prelude.{
  ℕ, zero, suc, ◌-◌, ◌||◌, List, [], ◌∷◌, Option, some, none, if◌then◌else◌, ℤ, pos, pos_part, ◌==◌,
}
use outline_gate.Go.Text.{Text, codes, text_eq, is_empty}
use outline_gate.Go.HostPort.{atoi}
use outline_gate.Connlog.Types.{Event}
use outline_gate.Web.{
  Request, Response, LogApi, Handler, write_json, write_err, stream_body, not_allowed, not_found,
  get_method, events_body,
}
use outline_gate.Web.Handlers.{minute}

-- The parameter "limit": a positive number, or 0.
abbrev limit_value : Option ℤ → ℤ
limit_value none = pos 0
limit_value (some n) = if pos_part n == 0 then pos 0 else n

abbrev pub limit_of : Text → ℤ
limit_of q = if is_empty q then pos 0 else limit_value (atoi q)

-- What is written to the stream, and what a turn of its loop finds.
pub data Frame : Type 0 where
  snapshot_frame : List Event → Frame
  ping_frame : Frame
  conn_frame : Event → Frame

pub data Pick : Type 0 where
  left ticked : Pick
  received : Option Event → Pick

-- A frame is written as long as the client takes one more.
abbrev written : ℕ → Frame → (ℕ → List Frame) → List Frame
written zero f more = []
written (suc n) f more = f ∷ more n

-- The loop of `handleConnectionsStream`.
unfoldable pub stream_loop : List Pick → ℕ → List Frame
stream_loop [] n = []
stream_loop (left ∷ ps) n = []
stream_loop (received none ∷ ps) n = []
stream_loop (ticked ∷ ps) n = written n ping_frame (λ (k : ℕ). stream_loop ps k)
stream_loop (received (some e) ∷ ps) n = written n (conn_frame e) (λ (k : ℕ). stream_loop ps k)

-- What it writes, from the snapshot on.
unfoldable pub stream_frames : List Event → List Pick → ℕ → List Frame
unfolding stream_loop
stream_frames events picks n = written n (snapshot_frame events) (λ (k : ℕ). stream_loop picks k)

module _ {S : Type 0} (api : LogApi S) where
  -- `handleConnections`.
  abbrev pub show_events : Request → S → S × Response
  show_events r s =
      let w = api.snapshot (limit_of (r.query (codes "limit"))) s in
      let c = api.stats (r.now - minute) w.0 in
      let n = api.len c.0 in (n.0, write_json 200 (events_body w.1 (api.capacity c.0) n.1 c.1))

  unfoldable pub handle_connections : Handler S
  unfolding atoi
  handle_connections r s =
      if text_eq r.method get_method then show_events r s else (s, not_allowed (codes "GET"))

  -- The head of `handleConnectionsStream`, up to its loop. The subscription of the loop ends with it, and is
  -- left out.
  abbrev pub start_stream : Request → S → S × Response
  start_stream r s =
      let w = api.snapshot (pos 0) s in
      if r.can_flush
      then (w.0, write_json 200 (stream_body w.1))
      else (s, write_err 500 (codes "streaming unsupported"))

  unfoldable pub handle_stream : Handler S
  handle_stream r s =
      if text_eq r.method get_method then start_stream r s else (s, not_allowed (codes "GET"))

  -- `routeConnectionsAPI`.
  unfoldable pub route_connections : Handler S
  unfolding handle_connections handle_stream
  route_connections r s =
      let p = r.path in
      if text_eq p (codes "/api/v1/connections") || text_eq p (codes "/api/v1/connections/")
      then handle_connections r s
      else if text_eq p (codes "/api/v1/connections/stream")
          || text_eq p (codes "/api/v1/connections/stream/")
      then handle_stream r s
      else (s, not_found)
