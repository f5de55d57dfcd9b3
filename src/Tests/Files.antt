-- ===== src/Tests/Files.antt =====
-- internal/bypass/store.go: a store, its file, and a disk whose calls fail.
use outline_gate.Prelude.{◌≡◌, ◌⊎◌, refl, true, false, List, [], ◌∷◌, none, some, All}
use outline_gate.Prelude.Result.{ok}
use outline_gate.Go.Text.{Text, codes, trim_space, trim_suffix, has_suffix}
use outline_gate.Go.Unicode.{ascii}
use outline_gate.Go.IpParse.{parse_ip}
use outline_gate.Bypass.Rule.{
  Rule, domain, parse_rule, parse_trimmed, validate_hostname, check_labels, check_label,
}
use outline_gate.Bypass.Rule.Canonical.{IsCanonical, parse_rule-IsCanonical}
use outline_gate.Bypass.RulesFile.{parse_rules_file, render_file, DistinctRaws}
use outline_gate.Bypass.RulesFile.RoundTrip.{parse_rules_file-render_file}
use outline_gate.Bypass.Disk.{Disk, Faults, persist_text}
use outline_gate.Bypass.Store.{Store, new_store, commit}
use outline_gate.Bypass.Store.Reload.{Saved, commit-Saved}
use outline_gate.Bypass.Store.Session.{Call, loads, adds, removes, run}
use outline_gate.Bypass.Store.Distinct.{run-DistinctRaws}
use outline_gate.Bypass.Store.Atomic.{Settles, IsIntact, persist_text-atomic, run-IsIntact}

abbrev name_rule : Text → Rule
name_rule t = record { raw = t; kind = domain; net = none; host = t }

abbrev one : Rule
one = name_rule (codes "a.example")

abbrev two : Rule
two = name_rule (codes "b.example")

one_parsed : parse_rule ascii (codes "a.example") ≡ ok one
unfolding parse_rule parse_trimmed validate_hostname check_labels check_label trim_space parse_ip
    trim_suffix has_suffix
one_parsed = refl

two_parsed : parse_rule ascii (codes "B.example") ≡ ok two
unfolding parse_rule parse_trimmed validate_hostname check_labels check_label trim_space parse_ip
    trim_suffix has_suffix
two_parsed = refl

no_addresses : (parse_ip one.raw ≡ []) × (parse_ip two.raw ≡ [])
unfolding parse_ip
no_addresses = (refl, refl)

canonical : All (IsCanonical ascii) (one ∷ two ∷ [])
canonical = (
  parse_rule-IsCanonical ascii (codes "a.example") one_parsed refl no_addresses.0,
  (parse_rule-IsCanonical ascii (codes "B.example") two_parsed refl no_addresses.1, tt),
)

parse_rules_file-render_file_example :
    parse_rules_file ascii (render_file (one ∷ two ∷ [])) ≡ ok (one ∷ two ∷ [])
parse_rules_file-render_file_example =
    parse_rules_file-render_file ascii (one ∷ two ∷ []) canonical ((refl, tt), (tt, tt))

abbrev sound_disk : Faults
sound_disk = record {
  mkdir_fails = false;
  open_fails = false;
  write_fails = false;
  written = 0;
  sync_fails = false;
  close_fails = false;
  rename_fails = false;
  read_fails = false;
}

-- The write stops after nine characters.
abbrev short_write : Faults
short_write = record sound_disk { write_fails = true; written = 9 }

abbrev empty_disk : Disk
empty_disk = record { file = none; temp = none; past = [] }

persist_text-atomic_example :
    Settles (codes "new") empty_disk (persist_text short_write (codes "new") empty_disk)
    × All
        (λ p. (p ≡ empty_disk.file) ⊎ (p ≡ some (codes "new")))
        (persist_text short_write (codes "new") empty_disk).0.past
persist_text-atomic_example = persist_text-atomic short_write (codes "new") empty_disk refl

abbrev store : Store
store = new_store (codes "/data/rules.txt")

abbrev calls : List Call
calls =
    adds sound_disk (codes "a.example")
    ∷ adds short_write (codes "b.example")
    ∷ removes sound_disk (codes "a.example")
    ∷ loads sound_disk
    ∷ []

run-IsIntact_example : All (IsIntact none) (run ascii (store, empty_disk) calls).1.past
run-IsIntact_example = run-IsIntact ascii store empty_disk calls tt refl

run-DistinctRaws_example : DistinctRaws (run ascii (store, empty_disk) calls).0.rules
run-DistinctRaws_example = run-DistinctRaws ascii store empty_disk calls tt

commit-Saved_example :
    Saved ascii sound_disk
      (one ∷ two ∷ [])
      store
      empty_disk
      (commit sound_disk (one ∷ two ∷ []) true store empty_disk)
commit-Saved_example =
    commit-Saved ascii sound_disk sound_disk (one ∷ two ∷ []) true store empty_disk refl refl
      canonical ((refl, tt), (tt, tt))
