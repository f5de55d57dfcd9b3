-- ===== src/Config.antt =====
-- internal/config/config.go: the part of the configuration that the other modules read.
pub mod Nets
pub mod AccessKey
pub mod Backend
pub mod Types
pub mod Validate
pub mod Environment
use outline_gate.Prelude.{List}
use outline_gate.Go.Text.{Text, codes}
use outline_gate.Go.Ip.{IpNet}

-- `RoutingMode` and `DirectPolicy`, which are strings in the source.
abbrev pub mode_exclude : Text
mode_exclude = codes "exclude"

abbrev pub mode_include : Text
mode_include = codes "include"

abbrev pub direct_allow : Text
direct_allow = codes "direct"

abbrev pub direct_drop : Text
direct_drop = codes "drop"

-- The fields of `Config` that select a path.
pub record RouteConfig : Type 0 where
  pub routing_mode : Text
  pub bypass_cidrs : List IpNet
  pub tunnel_cidrs : List IpNet
  pub direct_policy : Text
