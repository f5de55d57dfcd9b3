-- ===== src/Config/Backend/Redacted.antt =====
-- internal/config/config.go: what a redacted key shows of the secret in it.
use outline_gate.Prelude.{◌≡◌, refl, false, [], ◌∷◌, ◌++◌, some, none, ◌==◌, All}
use outline_gate.Go.Text.{Text, codes}
use outline_gate.Config.Backend.{after_last_at, cut_scheme, redact_access_key}

-- No "@" in a text.
abbrev pub NoAt : Text → Type 0
NoAt s = All (λ c. (c == b'@') ≡ false) s

after_last_at-none : (s : Text) → NoAt s → after_last_at s ≡ none
unfolding after_last_at
after_last_at-none [] h = refl
after_last_at-none (c ∷ s) (h, hs) = rw (h, after_last_at-none s hs) refl

after_last_at-host :
    (user host : Text) → NoAt host → after_last_at (user ++ b'@' ∷ host) ≡ some host
unfolding after_last_at
after_last_at-host [] host h = rw (after_last_at-none host h) refl
after_last_at-host (c ∷ user) host h = rw (after_last_at-host user host h) refl

-- The redacted form of a key "ss://user@host" is the same for every user part, whatever that part contains:
-- it is "ss://***@host".
pub redact_access_key-hides :
    (user host : Text)
    → NoAt host
    → redact_access_key (codes "ss://" ++ (user ++ b'@' ∷ host)) ≡ codes "ss://***@" ++ host
unfolding redact_access_key cut_scheme
redact_access_key-hides user host h = rw (after_last_at-host user host h) refl
