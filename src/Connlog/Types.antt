-- ===== src/Connlog/Types.antt =====
-- internal/connlog/store.go: the data of the connection log.
use outline_gate.Prelude.{ℕ, Bool, List, ℤ}
use outline_gate.Go.Text.{Text, codes}

-- `ProtoSOCKS` and `ProtoL3`.
abbrev pub proto_socks : Text
proto_socks = codes "socks"

abbrev pub proto_l3 : Text
proto_l3 = codes "l3"

abbrev pub via_tunnel : Text
via_tunnel = codes "tunnel"

abbrev pub via_direct : Text
via_direct = codes "direct"

abbrev pub via_drop : Text
via_drop = codes "drop"

-- `time` counts nanoseconds since Go's zero time.
pub record Event : Type 0 where
  pub id : ℕ
  pub time : ℕ
  pub proto : Text
  pub client_ip : Text
  pub target : Text
  pub host : Text
  pub port : ℕ
  pub via : Text
  pub rule : Text
  pub ok : Bool
  pub error : Text
  pub duration_ms : ℕ

-- A channel that `Subscribe` made: what waits in its buffer, whether it is a key of `subs`, and
-- whether it is closed.
pub record Chan : Type 0 where
  pub queue : List Event
  pub subscribed : Bool
  pub closed : Bool

-- `subs` holds every channel ever made, in order; a subscriber is known by its place.
pub record Store : Type 0 where
  pub cap : ℕ
  pub ttl : ℤ
  pub buf : List Event
  pub seq : ℕ
  pub subs : List Chan
