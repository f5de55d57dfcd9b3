-- ===== src/Gateway/Control/Kept.antt =====
-- internal/gateway/gateway.go: only `UpdateEngine` changes the engine of the controller.
use outline_gate.Prelude.{ℕ, ◌≡◌, refl, Bool, Option, some, none, if-both, List, not}
use outline_gate.Prelude.Result.{Result, ok, err}
use outline_gate.Go.Text.{Text}
use outline_gate.Go.Unicode.{Unicode}
use outline_gate.Routing.{Engine}
use outline_gate.Gateway.Script.{build_script, patch_script, script_text}
use outline_gate.Gateway.Control.{
  Host, State, Purpose, deletes, patches, builds, run_with, run_nft, resolve_nft, patch_for,
  patch_sets, after_build, rebuild_with, rebuild, or_rebuild, apply, flush, update_engine,
  delete_script, ensure_ip_forward,
}

abbrev pub HasEngine : Option Engine → State → Type 0
HasEngine e st = st.0.engine ≡ e

module _ (print : ℕ → Bool) (h : Host) (e : Option Engine) where
  run_with-HasEngine :
      (p : Purpose) (script : Text) (bin : Option Text) (st : State)
      → HasEngine e st
      → HasEngine e (run_with h p script bin st).0
  run_with-HasEngine p script none st i = i
  run_with-HasEngine p script (some bin) st i = i

  run_nft-HasEngine :
      (p : Purpose) (script : Text) (st : State)
      → HasEngine e st
      → HasEngine e (run_nft h p script st).0
  unfolding run_nft
  run_nft-HasEngine p script st = run_with-HasEngine p script (resolve_nft h st.0) st

  patch_for-HasEngine :
      (o : Option Engine) (st : State) → HasEngine e st → HasEngine e (patch_for h o st).0
  patch_for-HasEngine none st i = i
  patch_for-HasEngine (some x) st i = run_nft-HasEngine patches (script_text (patch_script x)) st i

  after_build-HasEngine :
      (o : State × Option Text) → HasEngine e o.0 → HasEngine e (after_build o).0
  after_build-HasEngine (st, none) i = i
  after_build-HasEngine (st, some x) i = i

  rebuild_with-HasEngine :
      (r : Result Text (List Text)) (st : State)
      → HasEngine e st
      → HasEngine e (rebuild_with h r st).0
  rebuild_with-HasEngine (err x) st i = i
  rebuild_with-HasEngine (ok lines) st i =
      let gone = run_nft h deletes delete_script st in
      after_build-HasEngine (run_nft h builds (script_text lines) gone.0) (
        run_nft-HasEngine builds (script_text lines) gone.0
          (run_nft-HasEngine deletes delete_script st i))

  or_rebuild-HasEngine :
      (o : State × Option Text) → HasEngine e o.0 → HasEngine e (or_rebuild print h o).0
  unfolding rebuild
  or_rebuild-HasEngine (st, none) i = i
  or_rebuild-HasEngine (st, some x) i =
      rebuild_with-HasEngine (build_script print st.0.cfg st.0.engine) st i

  -- `Apply` and `Flush` keep the engine.
  pub apply-HasEngine : (st : State) → HasEngine e st → HasEngine e (apply print h st).0
  unfolding apply rebuild patch_sets
  apply-HasEngine (g, s) i =
      let st : State = (g, ensure_ip_forward h s) in
      if-both (λ (o : State × Option Text). HasEngine e o.0) g.active _ _
        (or_rebuild-HasEngine (patch_sets h st) (patch_for-HasEngine g.engine st i))
        (rebuild_with-HasEngine (build_script print g.cfg g.engine) st i)

  pub flush-HasEngine : (u : Unicode) (st : State) → HasEngine e st → HasEngine e (flush u h st).0
  unfolding flush
  flush-HasEngine u st i = run_nft-HasEngine deletes delete_script st i

  pub update_engine-HasEngine : (st : State) → HasEngine e (update_engine print h e st).0
  unfolding update_engine
  update_engine-HasEngine (g, s) =
      if-both (λ (o : State × Option Text). HasEngine e o.0) (not g.active) _ _ refl
        (apply-HasEngine (record g { engine = e }, s) refl)
