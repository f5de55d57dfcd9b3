-- ===== src/Tests/Switch.antt =====
-- internal/tunnel/mux.go: a multiplexer whose dialers are numbers.
use outline_gate.Prelude.{ℕ, ◌≡◌, refl, List, [], ◌∷◌, some, none}
use outline_gate.Go.Text.{Text, codes, trim_space}
use outline_gate.Go.Unicode.{ascii}
use outline_gate.Tunnel.{Mux, normalize, new_mux}

abbrev mux : Mux ℕ ℕ
mux = new_mux (some 1) (some 2) none none none none

names_read :
    (normalize ascii (codes " AWG ") ≡ codes "amnezia")
    × (normalize ascii (codes "ss") ≡ codes "outline")
    × (normalize ascii (codes "Wire") ≡ codes "wire")
unfolding normalize trim_space
names_read = (refl, refl, refl)

abbrev names : List Text
names = codes "awg" ∷ codes "wire" ∷ []
