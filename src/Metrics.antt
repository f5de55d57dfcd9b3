-- ===== src/Metrics.antt =====
-- internal/metrics/metrics.go: the counters. An `atomic.Int64` wraps around at 2 ^ 64 and is read as
-- unsigned here. The text that reports them is not modelled.
pub mod Totals
use outline_gate.Prelude.{ℕ, ◌+◌, ◌%◌, ◌^◌, Bool, true, false, List, [], ◌∷◌, ◌++◌, if◌then◌else◌}
use outline_gate.Go.Text.{Text, codes, text_eq}
use outline_gate.Go.IpString.{itoa}

pub record Registry : Type 0 where
  pub tunnel_ok : ℕ
  pub tunnel_fail : ℕ
  pub direct_ok : ℕ
  pub direct_fail : ℕ
  pub dropped : ℕ
  pub socks_accept : ℕ
  pub l3_accept : ℕ
  pub probe_ok : ℕ
  pub probe_fail : ℕ
  pub refresh_ok : ℕ
  pub refresh_fail : ℕ
  pub refresh_changed : ℕ

-- `New`.
abbrev pub new_registry : Registry
new_registry = record {
  tunnel_ok = 0;
  tunnel_fail = 0;
  direct_ok = 0;
  direct_fail = 0;
  dropped = 0;
  socks_accept = 0;
  l3_accept = 0;
  probe_ok = 0;
  probe_fail = 0;
  refresh_ok = 0;
  refresh_fail = 0;
  refresh_changed = 0;
}

-- `Add(1)`.
abbrev pub increase : ℕ → ℕ
increase n = (n + 1) % 2 ^ 64

abbrev pub observe_proto : Text → Registry → Registry
observe_proto proto r =
    if text_eq proto (codes "socks")
    then record r { socks_accept = increase r.socks_accept }
    else if text_eq proto (codes "l3")
    then record r { l3_accept = increase r.l3_accept }
    else r

abbrev pub observe_via : Text → Bool → Registry → Registry
observe_via via good r =
    if text_eq via (codes "direct")
    then (if good
        then record r { direct_ok = increase r.direct_ok }
        else record r { direct_fail = increase r.direct_fail })
    else if text_eq via (codes "drop")
    then record r { dropped = increase r.dropped }
    else if good
    then record r { tunnel_ok = increase r.tunnel_ok }
    else record r { tunnel_fail = increase r.tunnel_fail }

-- `ObserveConnection`.
unfoldable pub observe_connection : Text → Text → Bool → Registry → Registry
observe_connection proto via good r = observe_via via good (observe_proto proto r)

-- `ObserveProbe`, and `ObserveRefresh`.
unfoldable pub observe_probe : Bool → Registry → Registry
observe_probe good r =
    if good
    then record r { probe_ok = increase r.probe_ok }
    else record r { probe_fail = increase r.probe_fail }

unfoldable pub observe_refresh : Bool → Bool → Registry → Registry
observe_refresh good changed r =
    if good
    then (if changed
        then record r {
          refresh_ok = increase r.refresh_ok;
          refresh_changed = increase r.refresh_changed;
        }
        else record r { refresh_ok = increase r.refresh_ok })
    else record r { refresh_fail = increase r.refresh_fail }
