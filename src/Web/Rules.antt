-- ===== src/Web/Rules.antt =====
-- internal/webui/server.go: the two lists of rules.
use outline_gate.Prelude.{
  ℕ, Bool, true, false, List, [], Option, some, none, if◌then◌else◌, map, length,
}
use outline_gate.Prelude.Result.{Result, ok, err}
use outline_gate.Go.Text.{Text, codes, text_eq, is_empty, trim_prefix, trim_suffix}
use outline_gate.Go.IpString.{net_string}
use outline_gate.Bypass.Rule.{Rule, Kind, ip, cidr, domain, suffix}
use outline_gate.Web.{
  Decoded, Request, Response, RulesApi, Handler, write_json, write_err, if_decoded, not_allowed,
  not_found, get_method, post_method, put_method, delete_method, err_string, rules_body, rule_body,
  deleted_body, count_body, nets_body, applied_body,
}

-- The texts of `Kind`.
unfoldable pub kind_name : Kind → Text
kind_name ip = codes "ip"
kind_name cidr = codes "cidr"
kind_name domain = codes "domain"
kind_name suffix = codes "suffix"

module _ {S : Type 0} (api : RulesApi S) where
  abbrev pub added : S × Result Text Rule → S × Response
  added (s, err e) = (s, write_err 400 e)
  added (s, ok r) = (s, write_json 201 (rule_body r.raw (kind_name r.kind)))

  abbrev pub post_rule : Decoded Text → S → S × Response
  post_rule d s = if_decoded d.error s (added (api.add_rule d.value s))

  abbrev pub removed : S × Result Text Bool → S × Response
  removed (s, err e) = (s, write_err 400 e)
  removed (s, ok false) = (s, write_err 404 (codes "rule not found"))
  removed (s, ok true) = (s, write_json 200 deleted_body)

  abbrev pub delete_raw : Text → S → S × Response
  delete_raw raw s =
      if is_empty raw
      then (s, write_err 400 (codes "rule is required"))
      else removed (api.remove_rule raw s)

  abbrev pub delete_rule : Request → S → S × Response
  delete_rule r s =
      let q = r.query (codes "rule") in delete_raw (if is_empty q then r.body_rule.value else q) s

  abbrev pub replaced : ℕ → S × Option Text → S × Response
  replaced n (s, some e) = (s, write_err 400 e)
  replaced n (s, none) = (s, write_json 200 (count_body n))

  abbrev pub put_rules : Decoded (List Text) → S → S × Response
  put_rules d s = if_decoded d.error s (replaced (length d.value) (api.set_rules d.value s))

  -- `handleRules`, for a manager that is there.
  unfoldable pub handle_rules : Handler S
  unfolding kind_name
  handle_rules r s =
      if text_eq r.method get_method
      then (
        s,
        write_json 200 (rules_body (map (λ (x : Rule). (x.raw, kind_name x.kind)) (api.rules s))),
      )
      else if text_eq r.method post_method
      then post_rule r.body_rule s
      else if text_eq r.method delete_method
      then delete_rule r s
      else if text_eq r.method put_method
      then put_rules r.body_rules s
      else (s, not_allowed (codes "GET, POST, DELETE, PUT"))

  -- `handleEffective`.
  unfoldable pub handle_effective : Handler S
  handle_effective r s =
      if text_eq r.method get_method
      then (
        s,
        write_json 200 (
            nets_body (map net_string (api.effective s)) (map net_string (api.resolved s))
              (api.last_error s)),
      )
      else (s, not_allowed [])

  abbrev pub refreshed : S × Option Text → S × Response
  refreshed (s, e) = (s, write_json 200 (applied_body (err_string e)))

  -- `handleApply`.
  unfoldable pub handle_apply : Handler S
  handle_apply r s =
      if text_eq r.method post_method then refreshed (api.refresh s) else (s, not_allowed [])

  -- `routeRulesAPI`.
  unfoldable pub route_rules : Text → Handler S
  unfolding handle_rules handle_effective handle_apply
  route_rules prefix r s =
      let path = trim_suffix (trim_prefix r.path prefix) (codes "/") in
      if is_empty path
      then handle_rules r s
      else if text_eq path (codes "/effective")
      then handle_effective r s
      else if text_eq path (codes "/apply")
      then handle_apply r s
      else (s, not_found)
