-- ===== src/Web/Index.antt =====
-- internal/webui/ui_index.go: the page, which carries the token. `json.Marshal` of a string is a parameter.
use outline_gate.Prelude.{◌&&◌, ◌||◌, not, [], ◌∷◌, ◌++◌, Option, some, none, if◌then◌else◌}
use outline_gate.Go.Text.{Text, codes, text_eq, is_empty, has_prefix, trim_prefix}
use outline_gate.Web.{
  Response, Server, Handler, write_json, not_found, get_method, page_body, plain_body, nothing,
}

abbrev pub needle : Text
needle = codes "</head>"

abbrev pub script_tag : Text → Text
script_tag quoted = codes "<script>window.__OG_UI_TOKEN__=" ++ (quoted ++ codes ";</script>")

-- The page with a text in front of the first occurrence of the needle, if there is one.
unfoldable pub insert_before : Text → Text → Option Text
insert_before tag [] = none
insert_before tag (c ∷ page) =
    let rest = insert_before tag page in
    if has_prefix (c ∷ page) needle
    then some (tag ++ (c ∷ page))
    else elim rest [ none ↦ none | some t ↦ some (c ∷ t) ]

abbrev or_front : Text → Text → Option Text → Text
or_front tag page none = tag ++ page
or_front tag page (some t) = t

-- `injectUIToken`.
unfoldable pub inject_token : (Text → Text) → Text → Text → Text
unfolding insert_before
inject_token marshal page token =
    let tag = script_tag (marshal token) in or_front tag page (insert_before tag page)

abbrev head_method : Text
head_method = codes "HEAD"

abbrev serve_page : (Text → Text) → Text → Text → Option (Option Text) → Response
serve_page marshal method token (some (some raw)) =
    write_json 200
      (if text_eq method head_method then nothing else page_body (inject_token marshal raw token))
serve_page marshal method token _ = not_found

-- `serveIndex`.
unfoldable pub serve_index : {S : Type 0} → (Text → Text) → Server S → Handler S
unfolding inject_token
serve_index marshal v r s =
    if not (text_eq r.method get_method) && not (text_eq r.method head_method)
    then (
      s,
      record {
        status = 405;
        allow = codes "GET, HEAD";
        payload = plain_body (codes "method not allowed");
      },
    )
    else (s, serve_page marshal r.method v.token v.index)

-- `serveUI` behind `http.StripPrefix`: the path is what follows "/ui/".
unfoldable pub serve_ui : {S : Type 0} → (Text → Text) → Server S → Handler S
unfolding serve_index
serve_ui marshal v r s =
    let p = trim_prefix (trim_prefix r.path (codes "/ui/")) (codes "/") in
    if is_empty p || text_eq p (codes "index.html")
    then serve_index marshal v r s
    else (s, v.asset r)
