-- ===== src/Gateway/InPlace.antt =====
-- internal/gateway/gateway.go: any sequence of calls on one controller, whatever nft answers. Concurrent
-- callers are such a sequence, since every method holds the mutex.
use outline_gate.Prelude.{
  ℕ, suc, ◌≡◌, refl, ap, ◌∙◌, sym, inl, inr, Bool, true, false, not, List, [], ◌∷◌, Option, some,
  none, if◌then◌else◌, if-both, Bool-cases, Option-cases, pos,
}
use mathlib.Core.Path.{subst}
use outline_gate.Prelude.Result.{ok}
use outline_gate.Go.Text.{Text, text_eq, text_eq_refl}
use outline_gate.Go.Unicode.{Unicode}
use outline_gate.Routing.{Engine}
use outline_gate.Gateway.Script.{
  Settings, script_text, patch_script, full_script, build_script, script_for,
}
use outline_gate.Gateway.Control.{
  Run, Purpose, deletes, patches, builds, Host, System, State, new_gateway, run_error, run_with,
  run_nft, resolve_nft, patch_sets, patch_for, rebuild, rebuild_with, or_rebuild, apply, flush,
  update_engine, delete_script, after_build, ensure_ip_forward,
}

-- Whether the last script that nft accepted is one of these two, the rules or the sets, with no deletion
-- asked for since.
unfoldable pub shows : Text → Text → List Run → Bool
shows full patch [] = false
shows full patch (r ∷ rs) =
    let before = shows full patch rs in
    elim r.purpose [
      | deletes ↦ false
      | patches ↦ elim r.error [ none ↦ text_eq r.script patch | some e ↦ before ]
      | builds ↦ elim r.error [ none ↦ text_eq r.script full | some e ↦ before ]
    ]

pub data Call : Type 0 where
  applies flushes : Host → Call
  updates : Host → Option Engine → Call

unfoldable pub step : (ℕ → Bool) → Unicode → State → Call → State
step print u st (applies h) = (apply print h st).0
step print u st (flushes h) = (flush u h st).0
step print u st (updates h engine) = (update_engine print h engine st).0

unfoldable pub run : (ℕ → Bool) → Unicode → State → List Call → State
run print u st [] = st
run print u st (c ∷ cs) = run print u (step print u st c) cs

module _ (print : ℕ → Bool) (u : Unicode) (cfg : Settings) (n : ℕ)
    (port : cfg.transproxy_port ≡ pos (suc n)) where
  abbrev full : Engine → Text
  full e = script_text (full_script print cfg e (suc n))

  abbrev patch : Engine → Text
  patch e = script_text (patch_script e)

  record IsInPlace (st : State) : Type 0 where
    same_cfg : st.0.cfg ≡ cfg
    in_place :
        st.0.active ≡ true
        → (e : Engine) → st.0.engine ≡ some e
        → shows (full e) (patch e) st.1.runs ≡ true

  inactive-IsInPlace : (st : State) → st.0.cfg ≡ cfg → st.0.active ≡ false → IsInPlace st
  inactive-IsInPlace st k off = record { same_cfg = k; in_place = λ on e h. absurd cc }

  -- A run of nft leaves the controller as it is, but for the binary.
  record Keeps (st after : State) : Type 0 where
    cfg_kept : after.0.cfg ≡ st.0.cfg
    engine_kept : after.0.engine ≡ st.0.engine

  run_with-Keeps :
      (h : Host) (p : Purpose) (s : Text) (bin : Option Text) (st : State)
      → Keeps st (run_with h p s bin st).0
  run_with-Keeps h p s none st = record { cfg_kept = refl; engine_kept = refl }
  run_with-Keeps h p s (some bin) st = record { cfg_kept = refl; engine_kept = refl }

  -- The end of a rebuild: nft takes the rules, or the controller is no longer active.
  built_with-IsInPlace :
      (h : Host) (bin : Option Text) (st : State) (e : Engine)
      → st.0.cfg ≡ cfg
      → st.0.engine ≡ some e
      → IsInPlace (after_build (run_with h builds (full e) bin st)).0
  unfolding shows
  built_with-IsInPlace h none st e k w = inactive-IsInPlace _ k refl
  built_with-IsInPlace h (some bin) st e k w = answered (h.nft st.1.runs (full e))
    where
      first : (e' : Engine) → st.0.engine ≡ some e' → e ≡ e'
      first e' w' = cc

      answered :
          (a : Option (Text × Text))
          → IsInPlace
              (after_build (
                (
                  record st.0 { nft_bin = bin },
                  record st.1 {
                    runs =
                        record { purpose = builds; script = full e; error = run_error a }
                        ∷ st.1.runs;
                  },
                ),
                run_error a,
              )).0
      answered none = record {
        same_cfg = k;
        in_place = λ on e' w'. rw (first e' w') (text_eq_refl (full e'));
      }
      answered (some a) = inactive-IsInPlace _ k refl

  script_built :
      (st : State) (e : Engine)
      → st.0.cfg ≡ cfg
      → st.0.engine ≡ some e
      → build_script print st.0.cfg st.0.engine ≡ ok (full_script print cfg e (suc n))
  script_built st e k w =
      ap (λ c. build_script print c st.0.engine) k
      ∙ ap (λ g. build_script print cfg g) w
      ∙ ap (script_for print cfg (some e)) port

  -- Without an engine nothing has to be in place.
  idle-IsInPlace : (st : State) → st.0.cfg ≡ cfg → st.0.engine ≡ none → IsInPlace st
  idle-IsInPlace st k w = record { same_cfg = k; in_place = λ on e w'. absurd cc }

  rebuild-IsInPlace : (h : Host) (st : State) → st.0.cfg ≡ cfg → IsInPlace (rebuild print h st).0
  unfolding rebuild run_nft
  rebuild-IsInPlace h st k = elim (Option-cases st.0.engine) [
    | inl w ↦
        subst (λ g. IsInPlace (rebuild_with h (build_script print st.0.cfg g) st).0) (sym w)
          (idle-IsInPlace st k w)
    | inr (e, w) ↦
        let gone : State = (run_nft h deletes delete_script st).0 in
        let keeps = run_with-Keeps h deletes delete_script (resolve_nft h st.0) st in
        subst (λ b. IsInPlace (rebuild_with h b st).0) (sym (script_built st e k w))
          (built_with-IsInPlace h (resolve_nft h gone.0) gone e (keeps.cfg_kept ∙ k)
            (keeps.engine_kept ∙ w))
  ]

  -- A patch: nft takes it, or all is rebuilt.
  patched_with-IsInPlace :
      (h : Host) (bin : Option Text) (st : State) (e : Engine)
      → st.0.cfg ≡ cfg
      → st.0.engine ≡ some e
      → IsInPlace (or_rebuild print h (run_with h patches (patch e) bin st)).0
  unfolding shows
  patched_with-IsInPlace h none st e k w = rebuild-IsInPlace h st k
  patched_with-IsInPlace h (some bin) st e k w = answered (h.nft st.1.runs (patch e))
    where
      first : (e' : Engine) → st.0.engine ≡ some e' → e ≡ e'
      first e' w' = cc

      answered :
          (a : Option (Text × Text))
          → IsInPlace
              (or_rebuild print h (
                (
                  record st.0 { nft_bin = bin },
                  record st.1 {
                    runs =
                        record { purpose = patches; script = patch e; error = run_error a }
                        ∷ st.1.runs;
                  },
                ),
                run_error a,
              )).0
      answered none = record {
        same_cfg = k;
        in_place = λ on e' w'. rw (first e' w') (text_eq_refl (patch e'));
      }
      answered (some a) = rebuild-IsInPlace h _ k

  patch_sets-IsInPlace :
      (h : Host) (st : State) → st.0.cfg ≡ cfg → IsInPlace (or_rebuild print h (patch_sets h st)).0
  unfolding patch_sets run_nft
  patch_sets-IsInPlace h st k = elim (Option-cases st.0.engine) [
    | inl w ↦
        subst (λ g. IsInPlace (or_rebuild print h (patch_for h g st)).0) (sym w)
          (rebuild-IsInPlace h st k)
    | inr (e, w) ↦
        subst (λ g. IsInPlace (or_rebuild print h (patch_for h g st)).0) (sym w)
          (patched_with-IsInPlace h (resolve_nft h st.0) st e k w)
  ]

  apply-IsInPlace : (h : Host) (st : State) → st.0.cfg ≡ cfg → IsInPlace (apply print h st).0
  unfolding apply
  apply-IsInPlace h (g, s) k =
      if-both (λ (r : State × Option Text). IsInPlace r.0) g.active _ _
        (patch_sets-IsInPlace h (g, ensure_ip_forward h s) k)
        (rebuild-IsInPlace h (g, ensure_ip_forward h s) k)

  step-IsInPlace : (st : State) (c : Call) → IsInPlace st → IsInPlace (step print u st c)
  unfolding step flush update_engine run_nft
  step-IsInPlace st (applies h) i = apply-IsInPlace h st i.same_cfg
  step-IsInPlace st (flushes h) i =
      inactive-IsInPlace _
        ((run_with-Keeps h deletes delete_script (resolve_nft h st.0) st).cfg_kept ∙ i.same_cfg)
        refl
  step-IsInPlace (g, s) (updates h engine) i = elim (Bool-cases g.active) [
    | inl on ↦
        subst (λ b. IsInPlace (updated b).0) (sym on)
          (apply-IsInPlace h (record g { engine = engine }, s) i.same_cfg)
    | inr off ↦
        subst (λ b. IsInPlace (updated b).0) (sym off)
          (inactive-IsInPlace (record g { engine = engine }, s) i.same_cfg off)
  ]
    where
      updated : Bool → State × Option Text
      updated b =
          let st : State = (record g { engine = engine }, s) in
          if not b then (st, none) else apply print h st

  run-IsInPlace : (st : State) (calls : List Call) → IsInPlace st → IsInPlace (run print u st calls)
  unfolding run
  run-IsInPlace st [] i = i
  run-IsInPlace st (c ∷ cs) i = run-IsInPlace (step print u st c) cs (step-IsInPlace st c i)

  -- After any calls on a new controller whose port is positive, whatever nft answers: if it counts itself
  -- active and has an engine, the last script that nft accepted is the rules or the sets of that very
  -- engine, and no deletion of the table was asked for since.
  pub run-shows :
      (engine : Option Engine) (s : System) (calls : List Call) (e : Engine)
      → (run print u (new_gateway cfg engine, s) calls).0.active ≡ true
      → (run print u (new_gateway cfg engine, s) calls).0.engine ≡ some e
      → shows (full e) (patch e) (run print u (new_gateway cfg engine, s) calls).1.runs ≡ true
  run-shows engine s calls e on w =
      (run-IsInPlace (new_gateway cfg engine, s) calls (inactive-IsInPlace _ refl refl)).in_place on
        e w
