-- ===== src/Proxy/Transparent/Destination.antt =====
-- internal/proxy/transparent.go: when the original destination of a connection is found, and which.
use outline_gate.Prelude.{◌≡◌, ◌↔◌, ◌⊎◌, false, none, arith}
use outline_gate.Proxy.Transparent.{Redirected, original_dst}

-- No destination is found exactly if the connection is not one of TCP, or both calls fail: a wrong guess
-- at the family costs nothing.
pub original_dst-none_iff :
    (r : Redirected)
    → (original_dst r ≡ none) ↔ ((r.is_tcp ≡ false) ⊎ ((r.original4 ≡ none) × (r.original6 ≡ none)))
unfolding original_dst
original_dst-none_iff r = ground arith
