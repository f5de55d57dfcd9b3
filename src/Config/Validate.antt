-- ===== src/Config/Validate.antt =====
-- internal/config/config.go: `Validate`, which also fills in some fields. The receiver is a configuration:
-- the guard `c == nil` of `DNSEnabled` has no counterpart.
pub mod Sound
use outline_gate.Prelude.{
  ℕ, zero, suc, Bool, true, false, not, ◌&&◌, ◌||◌, List, [], ◌∷◌, ◌++◌, Option, some, none, ltb,
  leb, if◌then◌else◌, ℤ, pos, negsuc, length, ◌==◌,
}
use outline_gate.Prelude.Result.{Result, ok, err, ◌>>=◌}
use outline_gate.Go.Text.{Text, codes, text_eq, is_empty, trim_space}
use outline_gate.Go.Unicode.{Unicode, lower}
use outline_gate.Go.HostPort.{split_host_port}
use outline_gate.Config.{mode_exclude, mode_include, direct_allow, direct_drop}
use outline_gate.Config.Types.{Config, dns_system, dns_tunnel, dns_static, dns_doh}

pub data Invalid : Type 0 where
  key_required bad_mode bad_policy bad_dns_mode bad_dns_listen bad_doh_addr bad_log_level
        no_tunnel_cidrs :
      Invalid
  bad_base bad_max bad_socks bad_health no_token bad_backend bad_refresh bad_ssconf : Invalid
  bad_probe_addr bad_probe_interval bad_probe_timeout bad_probe_fails : Invalid

-- `time.Duration` against 0 and another one, and a count against 1.
abbrev pub at_most_0 : ℤ → Bool
at_most_0 (pos zero) = true
at_most_0 (pos (suc n)) = false
at_most_0 (negsuc n) = true

abbrev pub below_0 : ℤ → Bool
below_0 (pos n) = false
below_0 (negsuc n) = true

abbrev pub below : ℤ → ℤ → Bool
below (pos m) (pos n) = ltb m n
below (pos m) (negsuc n) = false
below (negsuc m) (pos n) = true
below (negsuc m) (negsuc n) = ltb n m

-- One of some texts.
abbrev pub one_of : List Text → Text → Bool
one_of [] t = false
one_of (x ∷ xs) t = text_eq t x || one_of xs t

abbrev pub is_bad_addr : Text → Bool
is_bad_addr a = elim (split_host_port a) [ none ↦ true | some w ↦ false ]

-- Checks in order: the error of the first that fails.
abbrev pub reject_any : List (Bool × Invalid) → Config → Result Invalid Config
reject_any [] c = ok c
reject_any ((b, e) ∷ l) c = let rest = reject_any l c in if b then err e else rest

-- `DNSEnabled`.
abbrev pub dns_enabled : Config → Bool
dns_enabled c = text_eq c.dns_mode dns_doh || text_eq c.dns_mode dns_tunnel

abbrev pub some_bad_addr : List Text → Bool
some_bad_addr [] = false
some_bad_addr (a ∷ l) = is_bad_addr a || some_bad_addr l

-- The block for DNS: two defaults and two checks.
abbrev pub fill_dns : Config → Config
fill_dns c = record c {
  doh_url =
      if is_empty (trim_space c.doh_url)
      then codes "https://cloudflare-dns.com/dns-query"
      else c.doh_url;
  dns_listen = if length c.dns_listen == 0 then codes "127.0.0.1:53" ∷ [] else c.dns_listen;
}

abbrev pub dns_checks : Config → List (Bool × Invalid)
dns_checks c =
    (some_bad_addr c.dns_listen, bad_dns_listen)
    ∷ (not (is_empty c.doh_addr) && is_bad_addr c.doh_addr, bad_doh_addr)
    ∷ []

abbrev pub check_dns : Config → Result Invalid Config
check_dns c = reject_any (dns_checks c) c

abbrev pub with_dns : Config → Result Invalid Config
with_dns c = if dns_enabled c then check_dns (fill_dns c) else ok c

-- The switch on the backend.
abbrev pub with_backend : Unicode → Config → Result Invalid Config
with_backend u c =
    let name = lower u (trim_space c.tunnel_backend) in
    if one_of ([] ∷ codes "outline" ∷ codes "ss" ∷ []) name
    then ok (record c { tunnel_backend = codes "outline" })
    else if one_of (codes "amnezia" ∷ codes "awg" ∷ codes "amneziawg" ∷ []) name
    then ok (record c { tunnel_backend = codes "amnezia" })
    else err bad_backend

abbrev pub fill_iface : Config → Config
fill_iface c = record c {
  amnezia_iface =
      if is_empty (trim_space c.amnezia_iface) then codes "og-awg0" else c.amnezia_iface;
}

-- The block for the probe.
abbrev pub probe_checks : Config → List (Bool × Invalid)
probe_checks c =
    (is_bad_addr c.probe_addr, bad_probe_addr)
    ∷ (at_most_0 c.probe_interval, bad_probe_interval)
    ∷ (at_most_0 c.probe_timeout, bad_probe_timeout)
    ∷ []

abbrev pub check_probe : Config → Result Invalid Config
check_probe c = reject_any (probe_checks c) c

abbrev pub with_probe : Config → Result Invalid Config
with_probe c = if is_empty c.probe_addr then ok c else check_probe c

-- The first checks, those between the two blocks, and the last ones.
abbrev pub mode_checks : Config → List (Bool × Invalid)
mode_checks c =
    (is_empty c.access_key, key_required)
    ∷ (not (one_of (mode_exclude ∷ mode_include ∷ []) c.routing_mode), bad_mode)
    ∷ (not (one_of (direct_allow ∷ direct_drop ∷ []) c.direct_policy), bad_policy)
    ∷ (not (one_of (dns_system ∷ dns_tunnel ∷ dns_static ∷ dns_doh ∷ []) c.dns_mode), bad_dns_mode)
    ∷ []

abbrev pub check_modes : Config → Result Invalid Config
check_modes c = reject_any (mode_checks c) c

abbrev pub service_checks : Config → List (Bool × Invalid)
service_checks c =
    (
      not (one_of (codes "debug" ∷ codes "info" ∷ codes "warn" ∷ codes "error" ∷ []) c.log_level),
      bad_log_level,
    )
    ∷ (text_eq c.routing_mode mode_include && length c.tunnel_cidrs == 0, no_tunnel_cidrs)
    ∷ (at_most_0 c.reconnect_base, bad_base)
    ∷ (below c.reconnect_max c.reconnect_base, bad_max)
    ∷ (is_bad_addr c.socks_listen, bad_socks)
    ∷ (is_bad_addr c.health_listen, bad_health)
    ∷ (c.ui_enable && is_empty (trim_space c.ui_token), no_token)
    ∷ []

abbrev pub check_service : Config → Result Invalid Config
check_service c = reject_any (service_checks c) c

abbrev pub refresh_checks : Config → List (Bool × Invalid)
refresh_checks c =
    (at_most_0 c.bypass_dns_refresh, bad_refresh) ∷ (below_0 c.ssconf_refresh, bad_ssconf) ∷ []

abbrev pub fail_checks : Config → List (Bool × Invalid)
fail_checks c = (at_most_0 c.probe_fails, bad_probe_fails) ∷ []

abbrev pub check_refresh : Config → Result Invalid Config
check_refresh c = do
  a ← reject_any (refresh_checks c) c
  b ← with_probe a
  reject_any (fail_checks b) b

-- `Validate`: the configuration with what it fills in, or the error.
unfoldable pub validate : Unicode → Config → Result Invalid Config
validate u c = do
  a ← check_modes c
  b ← with_dns a
  d ← check_service b
  e ← with_backend u d
  check_refresh (fill_iface e)
