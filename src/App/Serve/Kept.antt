-- ===== src/App/Serve/Kept.antt =====
-- cmd/outline-gate/main.go with internal/webui: the requests of the web interface and the engine.
use outline_gate.Prelude.{ℕ, [], Option, some, none, List}
use outline_gate.Go.Text.{Text, trim_space}
use outline_gate.Bypass.Manager.{add_rule, remove_rule, replace_rules, refresh}
use outline_gate.Connlog.Types.{Store}
use outline_gate.Connlog.Methods.{snapshot, stats, len, no_counts}
use outline_gate.Outline
use outline_gate.Web.{Request, Response}
use outline_gate.Web.Mount.{mount, serve}
use outline_gate.Web.Mount.Kept.Handlers.{RulesKeep, ServerKeeps}
use outline_gate.Web.Mount.Kept.{serve-keeps}
use outline_gate.App.{Process, Around}
use outline_gate.App.Actions.{ActionError, switch_backend}
use outline_gate.App.Agrees.{
  IsAgreed, take_bypass-IsAgreed, rebuild_push-IsAgreed, switch_backend-IsAgreed,
  restart_services-IsAgreed, shutdown-IsAgreed,
}
use outline_gate.App.Serve.{
  Texts, bypass_api, block_api, kept_key, after_key, replace_access_key, switched, read_log,
  ui_server,
}

module _ {E : Type 0} (a : Around E) (t : Texts E) where
  bypass_api-RulesKeep : RulesKeep IsAgreed (bypass_api a t)
  bypass_api-RulesKeep = (
    λ raw p i.
        let w = add_rule a.unicode a.bypass_faults a.lookup raw p.bypass p.bypass_disk in
        take_bypass-IsAgreed a w.0 w.1 p i,
    λ raw p i.
        let w = remove_rule a.unicode a.bypass_faults a.lookup raw p.bypass p.bypass_disk in
        take_bypass-IsAgreed a w.0 w.1 p i,
    λ raws p i.
        let w = replace_rules a.unicode a.bypass_faults a.lookup raws p.bypass p.bypass_disk in
        take_bypass-IsAgreed a w.0 w.1 p i,
    λ p i. take_bypass-IsAgreed a (refresh a.lookup p.bypass).0 p.bypass_disk p i,
  )

  block_api-RulesKeep : RulesKeep IsAgreed (block_api a t)
  block_api-RulesKeep = (λ raw p i. i, λ raw p i. i, λ raws p i. i, λ p i. i)

  after_key-IsAgreed :
      (path key : Text) (p : Process E) (o : Outline.Outcome)
      → IsAgreed p
      → IsAgreed (after_key a t path key p o).0
  after_key-IsAgreed path key p (c, some e) i = i
  after_key-IsAgreed path key p (c, none) i =
      rebuild_push-IsAgreed a
        (record p { outline = c; key_disk = (kept_key a t path key (record p { outline = c })).0 })

  replace_access_key-IsAgreed :
      (path text : Text) (p : Process E)
      → IsAgreed p
      → IsAgreed (replace_access_key a t path text p).0
  unfolding replace_access_key
  replace_access_key-IsAgreed path text p i =
      after_key-IsAgreed path (trim_space text) p
        (Outline.set_access_key a.network (trim_space text) p.outline) i

  switched-IsAgreed :
      (o : Process E × Option ActionError) → IsAgreed o.0 → IsAgreed (switched a t o).0
  switched-IsAgreed (p, none) i = i
  switched-IsAgreed (p, some e) i = i

  read_log-IsAgreed :
      {A : Type 0} (p : Process E) (x : A) (o : Option (Store × A))
      → IsAgreed p
      → IsAgreed (read_log a t p x o).0
  read_log-IsAgreed p x none i = i
  read_log-IsAgreed p x (some (s, y)) i = i

  ui_server-ServerKeeps :
      (now : ℕ) (version : Text) (index : Option (Option Text)) (asset : Request → Response)
      (start : Process E)
      → ServerKeeps IsAgreed (ui_server a t now version index asset start)
  unfolding ui_server
  ui_server-ServerKeeps now version index asset start = (
    bypass_api-RulesKeep,
    block_api-RulesKeep,
    replace_access_key-IsAgreed start.cfg.access_key_persist_file,
    λ name p i. switched-IsAgreed (switch_backend a name p) (switch_backend-IsAgreed a name p i),
    (
      λ n p i. read_log-IsAgreed p [] (snapshot now n p.log) i,
      λ since p i. read_log-IsAgreed p no_counts (stats now since p.log) i,
      λ p i. read_log-IsAgreed p 0 (len now p.log) i,
    ),
    restart_services-IsAgreed a,
    shutdown-IsAgreed a,
  )

-- Whatever a request asks for, with or without the token, when the gateway has the engine that the path decider
-- reads before it, it has it after it.
pub serve-IsAgreed :
    {E : Type 0} (a : Around E) (t : Texts E) (now : ℕ) (version : Text)
    (index : Option (Option Text)) (asset : Request → Response) (start : Process E)
    (marshal : Text → Text) (select : List Text → Text → Option Text) (r : Request) (p : Process E)
    → IsAgreed p
    → IsAgreed
        (serve select (mount (ui_server a t now version index asset start) marshal a.unicode) r p).0
serve-IsAgreed a t now version index asset start marshal select r p i =
    serve-keeps IsAgreed (ui_server a t now version index asset start) marshal a.unicode select r p
      (ui_server-ServerKeeps a t now version index asset start) i
