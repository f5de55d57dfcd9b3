-- ===== src/Config/AccessKey/Restart.antt =====
-- internal/config/config.go: a key that the user interface stores is the one that the next start loads.
use outline_gate.Prelude.{
  ◌≡◌, refl, ap, ◌∙◌, sym, Bool, true, false, not, ◌&&◌, ◌||◌, [], ◌∷◌, Option, some, none, arith,
  if◌then◌else◌, if-both,
}
use outline_gate.Prelude.Result.{ok}
use outline_gate.Go.Text.{Text, codes, is_empty, trim_space, has_prefix, has_part, contains, split}
use outline_gate.Go.TextLaws.{trim_space_idem}
use outline_gate.Go.TrimLaws.{split-line_of}
use outline_gate.Go.Unicode.{Unicode, lower}
use outline_gate.Bypass.Disk.{Disk, Faults, DiskError, persist_text}
use outline_gate.Bypass.Store.Atomic.{persist_text-Settles, Settles}
use outline_gate.Config.AccessKey.{
  KeyError, no_key, many_tokens, redacted, no_scheme, PersistError, check_key, validate_access_key,
  first_line, first_non_comment_line, key_content, persist_access_key, write_key, as_error,
  persist_path, persisted_or, from_env, load_access_key,
}

-- A ladder of errors that gives none.
all_passed {ℓ} :
    {E : Type ℓ} (x y z w : E) (a b c d : Bool)
    → (if a then some x else if b then some y else if c then some z else if d then some w else none)
      ≡ none
    → ((a ≡ false) × (b ≡ false)) × (d ≡ false)
all_passed x y z w a b c d h = ground arith

last_of : (a b c d : Bool) → (a || b || c || d) ≡ false → d ≡ false
last_of a b c d h = ground arith

either : (a b : Bool) → (not a && not b) ≡ false → (a || b) ≡ true
either a b h = ground arith

module _ (u : Unicode) (k : Text) (trimmed : trim_space k ≡ k)
    (valid : validate_access_key u k ≡ none) where
  -- What a valid key is like.
  record IsKey : Type 0 where
    some_text : is_empty k ≡ false
    one_line : contains k b'\n' ≡ false
    no_comment : has_prefix k (codes "#") ≡ false

  scheme_first :
      (s : Text)
      → (has_prefix s (codes "ss://") || has_prefix s (codes "ssconf://")) ≡ true
      → has_prefix s (codes "#") ≡ false
  scheme_first [] h = refl
  scheme_first (c ∷ s) h = ground arith

  valid-IsKey : IsKey
  unfolding validate_access_key
  valid-IsKey =
      let e : check_key u k ≡ none = ap (check_key u) (sym trimmed) ∙ valid in
      let passed =
        all_passed no_key many_tokens redacted no_scheme (is_empty k)
          (contains k b' ' || contains k b'\t' || contains k b'\r' || contains k b'\n')
          (has_part k (codes "***")
            || has_part (lower u k) (codes "%2a%2a%2a")
            || has_part (lower u k) (codes "ready:")
            || has_part (lower u k) (codes "persist:"))
          (not (has_prefix k (codes "ss://")) && not (has_prefix k (codes "ssconf://"))) e in
      record {
        some_text = passed.0.0;
        one_line =
            last_of (contains k b' ') (contains k b'\t') (contains k b'\r') (contains k b'\n')
              passed.0.1;
        no_comment =
            scheme_first k
              (either (has_prefix k (codes "ss://")) (has_prefix k (codes "ssconf://")) passed.1);
      }

  first_line-content : first_non_comment_line (key_content k) ≡ k
  unfolding first_line split trim_space
  first_line-content =
      ap first_line (split-line_of b'\n' k [] valid-IsKey.one_line)
      ∙ rw (trimmed, valid-IsKey.some_text, valid-IsKey.no_comment) refl

module _ (u : Unicode) (f : Faults) (path key : Text) (d : Disk) where
  -- What a report of no error means.
  abbrev Stored : Disk × Option PersistError → Type 0
  Stored r =
      r.1 ≡ none
      → (validate_access_key u (trim_space key) ≡ none)
        × (r.0.file ≡ some (key_content (trim_space key)))

  persist_access_key-Stored : Stored (persist_access_key u f path key d)
  unfolding persist_access_key
  persist_access_key-Stored =
      if-both Stored (is_empty (trim_space path)) _ _ (λ h. absurd cc)
        (by_check (validate_access_key u (trim_space key)) refl)
    where
      settled :
          validate_access_key u (trim_space key) ≡ none
          → (r : Disk × Option DiskError) → Settles (key_content (trim_space key)) d r
          → Stored (as_error r)
      settled v (d', none) s = λ h. (v, s.0)
      settled v (d', some e) s = λ h. absurd cc

      by_check :
          (o : Option KeyError)
          → validate_access_key u (trim_space key) ≡ o
          → Stored (write_key f (trim_space key) d o)
      by_check (some e) v = λ h. absurd cc
      by_check none v =
          settled v (persist_text f (key_content (trim_space key)) d)
            (persist_text-Settles f (key_content (trim_space key)) d)

-- A key that is stored without an error is, without the blanks around it, the key of the next start, if
-- that start reads the file in which it was stored; and the file stays where it is.
pub load_access_key-persist :
    (u : Unicode) (f : Faults) (getenv : Text → Text) (read : Text → Option Text) (path key : Text)
    (d : Disk)
    → (persist_access_key u f path key d).1 ≡ none
    → persist_path getenv ≡ trim_space path
    → read (trim_space path) ≡ (persist_access_key u f path key d).0.file
    → load_access_key u getenv read ≡ record { moved = false; key = ok (trim_space key) }
unfolding load_access_key
load_access_key-persist u f getenv read path key d good same_path same_file =
    let k : Text = trim_space key in
    let trimmed : trim_space k ≡ k = trim_space_idem key in
    let (valid, held) = persist_access_key-Stored u f path key d good in
    let there : read (persist_path getenv) ≡ some (key_content k) =
      ap read same_path ∙ same_file ∙ held in
    ap (λ o. persisted_or u o (from_env getenv read)) there
    ∙ rw (first_line-content u k trimmed valid, (valid-IsKey u k trimmed valid).some_text, valid)
        refl
