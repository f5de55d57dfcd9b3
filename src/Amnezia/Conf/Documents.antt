-- ===== src/Amnezia/Conf/Documents.antt =====
-- internal/amnezia/conf.go: a document is read line by line as what it says, whatever blanks and comments
-- stand in it and whatever the case of its keys.
use outline_gate.Prelude.{
  ℕ, ◌-◌, ◌≡◌, refl, sym, ap, ◌∙◌, Bool, true, false, List, [], ◌∷◌, ◌++◌, append_assoc, append-nil,
  arith, if◌then◌else◌, All, ◌==◌, length, take, length-append, take-length-append,
}
use outline_gate.Go.Text.{Text, is_space, is_empty, trim_left, trim_space, split, contains}
use outline_gate.Go.TrimLaws.{
  Blank, Trimmed, trim_space-Trimmed, trim_space-around, trim_space-ends, trim_space-mark,
  split-line_of, cut-first, has_suffix-last, contains-append,
}
use outline_gate.Go.Unicode.{Unicode, lower}
use outline_gate.Go.HostPort.{cut}
use outline_gate.Amnezia.Conf.{
  Reading, empty_config, assign, slot_of, set_entry, inner, read_line, read_lines, finish,
  parse_conf,
}

-- What a line may be: blank, a comment behind one of the two marks, a section, or a setting with a key,
-- which is split off at its first character, and a value.
pub data Entry : Type 0 where
  blank : Entry
  comment : Bool → Text → Entry
  section : Text → Entry
  setting : ℕ → Text → Text → Entry

-- A line: an entry, and the blanks before it, behind it and on both sides of its equals sign.
pub record Line : Type 0 where
  pub entry : Entry
  pub before : Text
  pub behind : Text
  pub left : Text
  pub right : Text

-- The text of an entry, with the blanks on both sides of the equals sign.
abbrev pub entry_text : Entry → Text → Text → Text
entry_text blank left right = []
entry_text (comment hash s) left right = (if hash then b'#' else b';') ∷ s
entry_text (section name) left right = b'[' ∷ (name ++ b']' ∷ [])
entry_text (setting c key value) left right = c ∷ ((key ++ (left ++ (b'=' ∷ right))) ++ value)

abbrev pub line_text : Line → Text
line_text l = l.before ++ (entry_text l.entry l.left l.right ++ l.behind)

abbrev pub document : List Line → Text
document [] = []
document (l ∷ ls) = line_text l ++ (b'\n' ∷ document ls)

-- What an entry says.
abbrev pub says : Unicode → Entry → Reading → Reading
says u blank r = r
says u (comment hash s) r = r
says u (section name) r = record { section = lower u (trim_space name); config = r.config }
says u (setting c key value) r = record {
  section = r.section;
  config = assign (slot_of r.section (lower u (c ∷ key))) value r.config;
}

abbrev pub all_say : Unicode → List Line → Reading → Reading
all_say u [] r = r
all_say u (l ∷ ls) r = all_say u ls (says u l.entry r)

-- A key begins with no mark and has no equals sign; key and value have no blank at their ends; the value
-- is not empty.
pub data IsEntry : Entry → Type 0 where
  blank_ok : IsEntry blank
  comment_ok : (hash : Bool) (s : Text) → IsEntry (comment hash s)
  section_ok : (name : Text) → IsEntry (section name)
  setting_ok :
      {c : ℕ} {key value : Text}
      → is_space c ≡ false
      → contains (b'#' ∷ b';' ∷ b'[' ∷ []) c ≡ false
      → contains (c ∷ key) b'=' ≡ false
      → Trimmed (c ∷ key)
      → Trimmed value
      → is_empty value ≡ false
      → IsEntry (setting c key value)

pub record IsLine (l : Line) : Type 0 where
  pub fine : IsEntry l.entry
  pub before_blank : Blank l.before
  pub behind_blank : Blank l.behind
  pub left_blank : Blank l.left
  pub right_blank : Blank l.right
  pub no_newline : contains (line_text l) b'\n' ≡ false

module _ (u : Unicode) (r : Reading) where
  read-comment :
      (hash : Bool) (s : Text) → read_line u (trim_space ((if hash then b'#' else b';') ∷ s)) r ≡ r
  unfolding read_line
  read-comment true s = rw (trim_space-mark b'#' s refl) refl
  read-comment false s = rw (trim_space-mark b';' s refl) refl

  no_equals-Blank : (s : Text) → Blank s → contains s b'=' ≡ false
  no_equals-Blank [] b = refl
  no_equals-Blank (c ∷ s) b = ground (arith, no_equals-Blank s b.1, b.0)

  -- A line that begins with no mark is split at its first equals sign.
  plain_line :
      (c : ℕ) (s : Text)
      → contains (b'#' ∷ b';' ∷ b'[' ∷ []) c ≡ false
      → read_line u (c ∷ s) r ≡ set_entry u r (cut b'=' (c ∷ s))
  unfolding read_line
  plain_line c s h =
      let hash : (c == b'#') ≡ false = ground arith in
      let semicolon : (c == b';') ≡ false = ground arith in
      let bracket : (c == b'[') ≡ false = ground arith in rw (hash, semicolon, bracket) refl

  regrouped :
      (key left right value : Text)
      → (key ++ (left ++ (b'=' ∷ right))) ++ value ≡ (key ++ left) ++ (b'=' ∷ (right ++ value))
  regrouped key left right value =
      append_assoc key (left ++ (b'=' ∷ right)) value
      ∙ ap (λ s. key ++ s) (append_assoc left (b'=' ∷ right) value)
      ∙ sym (append_assoc key left (b'=' ∷ (right ++ value)))

  trim_space-left : (p s : Text) → Blank p → Trimmed s → trim_space (p ++ s) ≡ s
  trim_space-left p s b t =
      ap (λ w. trim_space (p ++ w)) (sym (append-nil s))
      ∙ trim_space-around p s [] b tt
      ∙ trim_space-Trimmed s t

  read-setting :
      (c : ℕ) (key value left right : Text)
      → IsEntry (setting c key value)
      → Blank left
      → Blank right
      → read_line u (trim_space (c ∷ ((key ++ (left ++ (b'=' ∷ right))) ++ value))) r
        ≡ says u (setting c key value) r
  read-setting c key value left right (setting_ok plain no_mark no_equals tk tv some_value) bl br =
      let full : Text = (c ∷ key) ++ left in
      let no_cut = contains-append (c ∷ key) left b'=' no_equals (no_equals-Blank left bl) in
      ap (λ s. read_line u s r)
        (trim_space-ends c (key ++ (left ++ (b'=' ∷ right))) value plain tv some_value)
      ∙ plain_line c ((key ++ (left ++ (b'=' ∷ right))) ++ value) no_mark
      ∙ ap (λ s. set_entry u r (cut b'=' (c ∷ s))) (regrouped key left right value)
      ∙ ap (set_entry u r) (cut-first b'=' full (right ++ value) no_cut)
      ∙ ap
          (λ k. record r {
            config = assign (slot_of r.section (lower u k)) (trim_space (right ++ value)) r.config;
          })
          (trim_space-around [] (c ∷ key) left tt bl ∙ trim_space-Trimmed (c ∷ key) tk)
      ∙ ap (λ v. record r { config = assign (slot_of r.section (lower u (c ∷ key))) v r.config })
          (trim_space-left right value br tv)

  inner_name : (name : Text) → inner (b'[' ∷ (name ++ b']' ∷ [])) ≡ name
  inner_name name =
      ap (λ n. take n (name ++ b']' ∷ [])) shorter ∙ take-length-append name (b']' ∷ [])
    where
      shorter : length (b'[' ∷ (name ++ b']' ∷ [])) - 2 ≡ length name
      shorter = omega (arith, length-append name (b']' ∷ []))

  section_line :
      (name : Text) → read_line u (b'[' ∷ (name ++ b']' ∷ [])) r ≡ says u (section name) r
  unfolding read_line
  section_line name = rw (has_suffix-last (b'[' ∷ name) b']', inner_name name) refl

  read-section :
      (name : Text)
      → read_line u (trim_space (b'[' ∷ (name ++ b']' ∷ []))) r ≡ says u (section name) r
  unfolding trim_left
  read-section name =
      ap (λ s. read_line u s r)
        (trim_space-ends b'[' name (b']' ∷ []) refl (record { left = refl; right = refl }) refl)
      ∙ section_line name

  read-entry :
      (e : Entry) (left right : Text)
      → IsEntry e
      → Blank left
      → Blank right
      → read_line u (trim_space (entry_text e left right)) r ≡ says u e r
  unfolding read_line trim_space
  read-entry blank left right h bl br = refl
  read-entry (comment hash s) left right h bl br = read-comment hash s
  read-entry (section name) left right h bl br = read-section name
  read-entry (setting c key value) left right h bl br = read-setting c key value left right h bl br

-- A line is read as what its entry says.
read-line :
    (u : Unicode) (r : Reading) (l : Line)
    → IsLine l
    → read_line u (trim_space (line_text l)) r ≡ says u l.entry r
read-line u r l h =
    ap (λ s. read_line u s r)
      (trim_space-around l.before (entry_text l.entry l.left l.right) l.behind h.before_blank
        h.behind_blank)
    ∙ read-entry u r l.entry l.left l.right h.fine h.left_blank h.right_blank

read_lines-document :
    (u : Unicode) (ls : List Line) (r : Reading)
    → All IsLine ls
    → read_lines u (split b'\n' (document ls)) r ≡ all_say u ls r
unfolding read_lines read_line split trim_space
read_lines-document u [] r h = refl
read_lines-document u (l ∷ ls) r h =
    ap (λ ts. read_lines u ts r) (split-line_of b'\n' (line_text l) (document ls) h.0.no_newline)
    ∙ ap (read_lines u (split b'\n' (document ls))) (read-line u r l h.0)
    ∙ read_lines-document u ls (says u l.entry r) h.1

-- A document of blank lines, comments, sections and settings, with blanks around each and around the
-- equals signs, is parsed as what its entries say one after the other, and then checked.
pub parse_conf-document :
    (u : Unicode) (ls : List Line)
    → All IsLine ls
    → parse_conf u (document ls)
      ≡ finish (all_say u ls (record { section = []; config = empty_config })).config
unfolding parse_conf
parse_conf-document u ls h =
    ap (λ (r : Reading). finish r.config)
      (read_lines-document u ls (record { section = []; config = empty_config }) h)
