-- ===== src/App/Reload.antt =====
-- cmd/outline-gate/main.go: which rules the engine has after a reload of the configuration.
use outline_gate.Prelude.{
  ◌≡◌, refl, sym, ap, ◌∙◌, Bool, true, false, List, [], ◌∷◌, ◌++◌, Option, some, none, length, drop,
  drop-all, arith,
}
use outline_gate.Go.Ip.{IpNet}
use outline_gate.Config.Types.{Config, route_config}
use outline_gate.Routing.{new_with_bypass}
use outline_gate.Bypass.Disk.{Disk}
use outline_gate.Bypass.Manager.{Manager, set_static, load_manager, effective_nets}
use outline_gate.Gateway.Control.{Gateway}
use outline_gate.App.{
  Process, Around, tunnel_bypass_ips, build_engine, rebuild_with, fire_all, take_bypass,
  load_bypass, load_block,
}
use outline_gate.App.Actions.{
  reload_rules, fresh_gateway, apply_if, reload_with, reload_config, reload,
}

drop-length_append {ℓ} : {A : Type ℓ} (xs ys : List A) → drop (length xs) (xs ++ ys) ≡ ys
drop-length_append [] ys = refl
drop-length_append (x ∷ xs) ys = drop-length_append xs ys

module _ {E : Type 0} (a : Around E) where
  -- A manager that did not call back leaves the engine.
  take_bypass-quiet :
      (m : Manager E) (d : Disk) (p : Process E)
      → m.notices ≡ p.bypass.notices
      → (take_bypass a m d p).engine ≡ p.engine
  unfolding take_bypass fire_all
  take_bypass-quiet m d p e =
      ap
        (λ (more : List (List IpNet)).
          (fire_all a more (record p { bypass = m; bypass_disk = d })).engine)
        (drop-all (length p.bypass.notices) m.notices (rw e (omega arith)))

  -- One that called back once has the engine rebuilt from the nets of that call.
  take_bypass-once :
      (m : Manager E) (d : Disk) (p : Process E) (nets : List IpNet)
      → m.notices ≡ p.bypass.notices ++ nets ∷ []
      → (take_bypass a m d p).engine ≡ some (build_engine nets p)
  unfolding take_bypass fire_all
  take_bypass-once m d p nets e =
      ap
        (λ (more : List (List IpNet)).
          (fire_all a more (record p { bypass = m; bypass_disk = d })).engine)
        (ap (drop (length p.bypass.notices)) e ∙ drop-length_append p.bypass.notices (nets ∷ []))

  fire_all-bypass :
      (more : List (List IpNet)) (p : Process E)
      → ((fire_all a more p).bypass ≡ p.bypass) × ((fire_all a more p).bypass_disk ≡ p.bypass_disk)
  unfolding fire_all
  fire_all-bypass [] p = (refl, refl)
  fire_all-bypass (nets ∷ more) p = fire_all-bypass more (rebuild_with a nets p)

  load_bypass-quiet :
      (q : Process E) (m : Manager E) (d : Disk)
      → q.bypass ≡ m
      → q.bypass_disk ≡ d
      → (load_manager a.unicode a.bypass_faults a.lookup m d).0.notices ≡ m.notices
      → (load_bypass a q).engine ≡ q.engine
  unfolding load_bypass
  load_bypass-quiet q m d em ed e =
      let loaded =
        λ (x : Manager E) (y : Disk). load_manager a.unicode a.bypass_faults a.lookup x y in
      take_bypass-quiet (loaded q.bypass q.bypass_disk).0 (loaded q.bypass q.bypass_disk).1 q (
        ap (λ (x : Manager E). (loaded x q.bypass_disk).0.notices) em
        ∙ ap (λ (y : Disk). (loaded m y).0.notices) ed
        ∙ e
        ∙ ap (λ (x : Manager E). x.notices) (sym em))

  -- The nets in front of the load.
  abbrev old_nets : Config → Process E → List IpNet
  old_nets cfg p = effective_nets (record p.bypass { static = cfg.bypass_cidrs })

  module _ (cfg : Config) (p : Process E) (hooked : p.bypass.hooked ≡ true) where
    set_static-notices :
        (set_static cfg.bypass_cidrs p.bypass).notices ≡ p.bypass.notices ++ old_nets cfg p ∷ []
    unfolding effective_nets
    set_static-notices = rw hooked refl

    reload_rules-stale :
        (load_manager a.unicode a.bypass_faults a.lookup
            (set_static cfg.bypass_cidrs p.bypass)
            p.bypass_disk).0.notices
          ≡ (set_static cfg.bypass_cidrs p.bypass).notices
        → (reload_rules a cfg p).engine ≡ some (build_engine (old_nets cfg p) p)
    unfolding load_block take_bypass
    reload_rules-stale e =
        let m = set_static cfg.bypass_cidrs p.bypass in
        let kept =
          fire_all-bypass (drop (length p.bypass.notices) m.notices)
            (record p { bypass = m; bypass_disk = p.bypass_disk }) in
        load_bypass-quiet (take_bypass a m p.bypass_disk p) m p.bypass_disk kept.0 kept.1 e
        ∙ take_bypass-once m p.bypass_disk p (old_nets cfg p) set_static-notices

  apply_if-engine :
      (b : Bool) (g : Option Gateway) (p : Process E) → (apply_if a b g p).engine ≡ p.engine
  apply_if-engine false g p = refl
  apply_if-engine true none p = refl
  apply_if-engine true (some g) p = refl

  reload_with-stale :
      (cfg : Config) (g : Gateway) (p : Process E)
      → p.bypass.hooked ≡ true
      → (load_manager a.unicode a.bypass_faults a.lookup
          (set_static cfg.bypass_cidrs p.bypass)
          p.bypass_disk).0.notices
        ≡ (set_static cfg.bypass_cidrs p.bypass).notices
      → (reload_with a cfg (some g) p).engine ≡ some (build_engine (old_nets cfg p) p)
  reload_with-stale cfg g p hooked e =
      let q : Process E = reload_rules a cfg (fresh_gateway a cfg p) in
      apply_if-engine g.active q.gw q ∙ reload_rules-stale cfg (fresh_gateway a cfg p) hooked e

  -- A reload, with a gateway, whose load of the rules file does not call back, as when only rules without
  -- names changed: the engine that is in force afterwards has the new configuration, but the rules that
  -- were in force before the reload, not those of the file.
  pub reload-engine :
      (cfg : Config) (g : Gateway) (p : Process E)
      → a.fresh ≡ some cfg
      → p.gw ≡ some g
      → p.bypass.hooked ≡ true
      → (load_manager a.unicode a.bypass_faults a.lookup
          (set_static cfg.bypass_cidrs p.bypass)
          p.bypass_disk).0.notices
        ≡ (set_static cfg.bypass_cidrs p.bypass).notices
      → (reload a p).engine
        ≡ some (
            new_with_bypass
              (route_config cfg)
              (effective_nets (record p.bypass { static = cfg.bypass_cidrs }))
              (tunnel_bypass_ips p.outline p.awg))
  unfolding reload
  reload-engine cfg g p fresh gateway hooked e =
      let q : Process E = record p { cfg = cfg; allow = cfg.socks_allow_cidrs } in
      ap (λ (o : Option Config). (reload_config a o p).engine) fresh
      ∙ ap (λ (o : Option Gateway). (reload_with a cfg o q).engine) gateway
      ∙ reload_with-stale cfg g q hooked e
