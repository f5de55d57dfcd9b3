-- ===== src/Outline/Ssconf/Static.antt =====
-- internal/outline/ssconf.go: keys that name no document.
use outline_gate.Prelude.{◌≡◌, refl, ap, ◌∙◌, false, List, [], ◌∷◌, All, if-both}
use outline_gate.Prelude.Result.{ok}
use outline_gate.Go.Text.{Text, is_empty, trim_space, contains, split}
use outline_gate.Go.Ip.{Bytes}
use outline_gate.Outline.{is_dynamic_key}
use outline_gate.Go.SplitLaws.{join-split}
use outline_gate.Outline.Ssconf.{Web, expand_parts, expand_access_key, joined}

-- No part names a document.
abbrev pub IsStatic : Text → Type 0
IsStatic p = is_dynamic_key (trim_space p) ≡ false

module _ (w : Web) (bytes : Text → Bytes) where
  expand_parts-static : (ps : List Text) → All IsStatic ps → expand_parts w bytes ps ≡ ok ps
  unfolding expand_parts
  expand_parts-static [] h = refl
  expand_parts-static (p ∷ ps) (h, hs) = rw (h, expand_parts-static ps hs) refl

  -- A key of one or more parts of which none names a document is returned as it is, but for the blanks
  -- around it: whatever the network does, and with the blanks inside.
  pub expand_access_key-static :
      (text : Text)
      → is_empty (trim_space text) ≡ false
      → All IsStatic (split b'|' (trim_space text))
      → is_dynamic_key (trim_space text) ≡ false
      → expand_access_key w bytes text ≡ ok (trim_space text)
  unfolding expand_access_key
  expand_access_key-static text full h single =
      rw (full, single)
        (if-both (λ r. r ≡ ok (trim_space text)) (contains (trim_space text) b'|') _ _
          (ap joined (expand_parts-static (split b'|' (trim_space text)) h)
            ∙ ap ok (join-split b'|' (trim_space text)))
          refl)
