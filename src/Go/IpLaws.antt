-- ===== src/Go/IpLaws.antt =====
-- What `net.ParseIP` refuses.
use outline_gate.Prelude.{◌≡◌, refl, inl, inr, List, [], ◌∷◌, none, Bool-cases}
use outline_gate.Go.Text.{Text, contains, split}
use outline_gate.Go.IpParse.{octet, octets, octet_from, parse_ip4, first_mark, parse_addr, parse_ip}

octets-bad : (l : Text) (ls : List Text) → octet l ≡ none → octets (l ∷ ls) ≡ none
octets-bad l (a ∷ b ∷ c ∷ []) h = rw h
octets-bad l (a ∷ b ∷ c ∷ d ∷ ls) h = refl
octets-bad l (a ∷ b ∷ []) h = refl
octets-bad l (a ∷ []) h = refl
octets-bad l [] h = refl

-- A text that begins with `*.` is no address.
pub parse_ip-star : (s : Text) → parse_ip (b'*' ∷ b'.' ∷ s) ≡ []
unfolding parse_ip parse_addr parse_ip4 octet_from split first_mark
parse_ip-star s = elim (Bool-cases (contains s b'%')) [
  | inl zone ↦ rw zone
  | inr plain ↦ rw (plain, octets-bad (b'*' ∷ []) (split b'.' s) refl)
]
