-- ===== src/Config/Validate/Sound.antt =====
-- internal/config/config.go: what holds of a configuration that passes `Validate`.
use mathlib.Core.Path.{subst}
use outline_gate.Prelude.{
  ◌≡◌, ◌⊎◌, All, refl, ◌∙◌, inl, inr, Bool, true, false, not, ◌&&◌, ◌||◌, List, [], ◌∷◌, arith,
  if◌then◌else◌, length, ◌==◌,
}
use outline_gate.Prelude.Result.{Result, ok, err, ◌>>=◌}
use outline_gate.Go.Text.{Text, codes, text_eq, is_empty, trim_space}
use outline_gate.Go.Unicode.{Unicode, lower}
use outline_gate.Config.{mode_exclude, mode_include, direct_allow, direct_drop}
use outline_gate.Config.Types.{Config, dns_system, dns_tunnel, dns_static, dns_doh}
use outline_gate.Config.Validate.{
  Invalid, at_most_0, below_0, below, one_of, is_bad_addr, some_bad_addr, reject_any, mode_checks,
  service_checks, dns_checks, probe_checks, refresh_checks, fail_checks, dns_enabled, fill_dns,
  check_dns, with_dns, with_backend, fill_iface, check_probe, with_probe, check_modes,
  check_service, check_refresh, validate, bad_backend,
}

-- The texts of each choice are those of its constants, and what goes with a choice is there.
pub record HasModes (c : Config) : Type 0 where
  pub key : is_empty c.access_key ≡ false
  pub mode : one_of (mode_exclude ∷ mode_include ∷ []) c.routing_mode ≡ true
  pub policy : one_of (direct_allow ∷ direct_drop ∷ []) c.direct_policy ≡ true
  pub dns_mode : one_of (dns_system ∷ dns_tunnel ∷ dns_static ∷ dns_doh ∷ []) c.dns_mode ≡ true

pub record HasService (c : Config) : Type 0 where
  pub level :
      one_of (codes "debug" ∷ codes "info" ∷ codes "warn" ∷ codes "error" ∷ []) c.log_level ≡ true
  pub tunnels : (text_eq c.routing_mode mode_include && length c.tunnel_cidrs == 0) ≡ false
  pub base : at_most_0 c.reconnect_base ≡ false
  pub longest : below c.reconnect_max c.reconnect_base ≡ false
  pub socks : is_bad_addr c.socks_listen ≡ false
  pub health : is_bad_addr c.health_listen ≡ false
  pub token : (c.ui_enable && is_empty (trim_space c.ui_token)) ≡ false

-- The lists and addresses of the DNS service, where it runs.
pub record HasDns (c : Config) : Type 0 where
  pub listens : (length c.dns_listen == 0) ≡ false
  pub addresses : some_bad_addr c.dns_listen ≡ false
  pub url : is_empty (trim_space c.doh_url) ≡ false
  pub address : (not (is_empty c.doh_addr) && is_bad_addr c.doh_addr) ≡ false

pub record HasRefresh (c : Config) : Type 0 where
  pub refresh : at_most_0 c.bypass_dns_refresh ≡ false
  pub ssconf : below_0 c.ssconf_refresh ≡ false
  pub probe :
      (not (is_empty c.probe_addr)
        && (is_bad_addr c.probe_addr || at_most_0 c.probe_interval || at_most_0 c.probe_timeout))
      ≡ false
  pub fails : at_most_0 c.probe_fails ≡ false

pub record IsSound (c : Config) : Type 0 where
  pub modes : HasModes c
  pub service : HasService c
  pub backend : one_of (codes "outline" ∷ codes "amnezia" ∷ []) c.tunnel_backend ≡ true
  pub iface : is_empty (trim_space c.amnezia_iface) ≡ false
  pub refresh : HasRefresh c
  pub dns : (dns_enabled c ≡ false) ⊎ HasDns c

-- No check fails.
abbrev Passed : List (Bool × Invalid) → Type 0
Passed = All (λ p. p.0 ≡ false)

goes_on :
    (l : List (Bool × Invalid)) (c z : Config) (f : Config → Result Invalid Config)
    → (reject_any l c >>= f) ≡ ok z
    → Passed l × (f c ≡ ok z)
goes_on [] c z f h = (tt, h)
goes_on ((true, e) ∷ l) c z f h = absurd cc
goes_on ((false, e) ∷ l) c z f h = let (rest, k) = goes_on l c z f h in ((refl, rest), k)

then_ok : (m : Result Invalid Config) → (m >>= ok) ≡ m
then_ok (ok c) = refl
then_ok (err e) = refl

is_true : (b : Bool) → not b ≡ false → b ≡ true
is_true b h = ground arith

module _ (c z : Config) (f : Config → Result Invalid Config) where
  check_modes-HasModes : (check_modes c >>= f) ≡ ok z → HasModes c × (f c ≡ ok z)
  check_modes-HasModes h =
      let (checks, k) = goes_on (mode_checks c) c z f h in
      (
        record {
          key = checks.0;
          mode = is_true _ checks.1.0;
          policy = is_true _ checks.1.1.0;
          dns_mode = is_true _ checks.1.1.1.0;
        },
        k,
      )

  check_service-HasService : (check_service c >>= f) ≡ ok z → HasService c × (f c ≡ ok z)
  check_service-HasService h =
      let (checks, k) = goes_on (service_checks c) c z f h in
      (
        record {
          level = is_true _ checks.0;
          tunnels = checks.1.0;
          base = checks.1.1.0;
          longest = checks.1.1.1.0;
          socks = checks.1.1.1.1.0;
          health = checks.1.1.1.1.1.0;
          token = checks.1.1.1.1.1.1.0;
        },
        k,
      )

  -- The service for DNS does not run, or has what it needs.
  with_dns-HasDns :
      (with_dns c >>= f) ≡ ok z
      → ((dns_enabled c ≡ false) × (f c ≡ ok z)) ⊎ (HasDns (fill_dns c) × (f (fill_dns c) ≡ ok z))
  unfolding trim_space
  with_dns-HasDns h = enabled (dns_enabled c) refl h
    where
      enabled :
          (b : Bool)
          → dns_enabled c ≡ b
          → ((if b then check_dns (fill_dns c) else ok c) >>= f) ≡ ok z
          → ((dns_enabled c ≡ false) × (f c ≡ ok z))
            ⊎ (HasDns (fill_dns c) × (f (fill_dns c) ≡ ok z))
      enabled false e h = inl (e, h)
      enabled true e h =
          let (checks, k) = goes_on (dns_checks (fill_dns c)) (fill_dns c) z f h in
          inr (
            record {
              listens = ground arith;
              addresses = checks.0;
              url = ground arith;
              address = checks.1.0;
            },
            k,
          )

  with_backend-named :
      (u : Unicode)
      → (with_backend u c >>= f) ≡ ok z
      → (t : Text) × (one_of (codes "outline" ∷ codes "amnezia" ∷ []) t ≡ true)
        × (f (record c { tunnel_backend = t }) ≡ ok z)
  with_backend-named u h =
      chosen
        (one_of ([] ∷ codes "outline" ∷ codes "ss" ∷ []) (lower u (trim_space c.tunnel_backend)))
        (one_of (codes "amnezia" ∷ codes "awg" ∷ codes "amneziawg" ∷ [])
          (lower u (trim_space c.tunnel_backend)))
        h
    where
      chosen :
          (a b : Bool)
          → ((if a
                then ok (record c { tunnel_backend = codes "outline" })
                else if b
                then ok (record c { tunnel_backend = codes "amnezia" })
                else err bad_backend)
              >>= f)
            ≡ ok z
          → (t : Text) × (one_of (codes "outline" ∷ codes "amnezia" ∷ []) t ≡ true)
            × (f (record c { tunnel_backend = t }) ≡ ok z)
      chosen true b h = (codes "outline", refl, h)
      chosen false true h = (codes "amnezia", refl, h)
      chosen false false h = absurd cc

  with_probe_sound :
      (with_probe c >>= f) ≡ ok z
      → ((not (is_empty c.probe_addr)
            && (is_bad_addr c.probe_addr
                || at_most_0 c.probe_interval
                || at_most_0 c.probe_timeout))
          ≡ false)
        × (f c ≡ ok z)
  with_probe_sound h = probed (is_empty c.probe_addr) h
    where
      probed :
          (b : Bool)
          → ((if b then ok c else check_probe c) >>= f) ≡ ok z
          → ((not b
                && (is_bad_addr c.probe_addr
                    || at_most_0 c.probe_interval
                    || at_most_0 c.probe_timeout))
              ≡ false)
            × (f c ≡ ok z)
      probed true h = (refl, h)
      probed false h =
          let (checks, k) = goes_on (probe_checks c) c z f h in
          (rw (checks.0, checks.1.0, checks.1.1.0) refl, k)

check_refresh-HasRefresh : (c z : Config) → check_refresh c ≡ ok z → HasRefresh c × (c ≡ z)
check_refresh-HasRefresh c z h =
    let (checks, k) = goes_on (refresh_checks c) c z _ h in
    let (p, k') = with_probe_sound c z _ k in
    let (fail, e) = goes_on (fail_checks c) c z ok (then_ok (reject_any (fail_checks c) c) ∙ k') in
    (record { refresh = checks.0; ssconf = checks.1.0; probe = p; fails = fail.0 }, cc)

abbrev after_service : Unicode → Config → Result Invalid Config
after_service u d = with_backend u d >>= λ e. check_refresh (fill_iface e)

abbrev after_dns : Unicode → Config → Result Invalid Config
after_dns u b = check_service b >>= after_service u

abbrev after_modes : Unicode → Config → Result Invalid Config
after_modes u a = with_dns a >>= after_dns u

module _ (u : Unicode) (b z : Config) (m : HasModes b)
    (dns : (dns_enabled b ≡ false) ⊎ HasDns b) where
  named_iface :
      (t : Text)
      → is_empty (trim_space (if is_empty (trim_space t) then codes "og-awg0" else t)) ≡ false
  unfolding trim_space
  named_iface t = ground arith

  -- The last two fields that are filled in.
  filled-IsSound :
      (t : Text)
      → HasService b
      → one_of (codes "outline" ∷ codes "amnezia" ∷ []) t ≡ true
      → HasRefresh (fill_iface (record b { tunnel_backend = t }))
      → IsSound (fill_iface (record b { tunnel_backend = t }))
  filled-IsSound t s known r = record {
    modes = record { key = m.key; mode = m.mode; policy = m.policy; dns_mode = m.dns_mode };
    service = record {
      level = s.level;
      tunnels = s.tunnels;
      base = s.base;
      longest = s.longest;
      socks = s.socks;
      health = s.health;
      token = s.token;
    };
    backend = known;
    iface = named_iface b.amnezia_iface;
    refresh = r;
    dns = elim dns [
      | inl e ↦ inl e
      | inr d ↦ inr (record {
        listens = d.listens;
        addresses = d.addresses;
        url = d.url;
        address = d.address;
      })
    ];
  }

  after_dns-IsSound : after_dns u b ≡ ok z → IsSound z
  after_dns-IsSound h =
      let (s, h1) = check_service-HasService b z (after_service u) h in
      let (t, known, h2) = with_backend-named b z (λ e. check_refresh (fill_iface e)) u h1 in
      let (r, e) = check_refresh-HasRefresh (fill_iface (record b { tunnel_backend = t })) z h2 in
      subst IsSound e (filled-IsSound t s known r)

-- What passes `Validate` is sound.
pub validate-IsSound : (u : Unicode) (c z : Config) → validate u c ≡ ok z → IsSound z
unfolding validate
validate-IsSound u c z h =
    let (m, h1) = check_modes-HasModes c z (after_modes u) h in
    elim (with_dns-HasDns c z (after_dns u) h1) [
      | inl off ↦ after_dns-IsSound u c z m (inl off.0) off.1
      | inr on ↦
          after_dns-IsSound u (fill_dns c) z
            (record { key = m.key; mode = m.mode; policy = m.policy; dns_mode = m.dns_mode })
            (inr on.0) on.1
    ]
