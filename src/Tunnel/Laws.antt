-- ===== src/Tunnel/Laws.antt =====
-- internal/tunnel/mux.go: which names select which backend, and what a switch leaves behind.
use outline_gate.Prelude.{
  ◌≡◌, ◌≢◌, ◌⊎◌, inl, inr, refl, ap, ◌∙◌, Bool, List, [], ◌∷◌, Option, some, none, arith,
  Option-cases,
}
use outline_gate.Prelude.Result.{ok, err}
use outline_gate.Go.Text.{Text, text_eq_iff, trim_space}
use outline_gate.Go.TextLaws.{trim_space_idem, trim_space-lower, lower_idem, lower_small}
use outline_gate.Go.Unicode.{Unicode, lower}
use outline_gate.Go.Ip.{IpAddr}
use outline_gate.Tunnel.{
  Mux, unknown_backend, amnezia_missing, normalize, set_backend, active, backend_of,
  backend_outline, backend_amnezia, new_mux, dial_with,
}

outline_small : (u : Unicode) → lower u (trim_space backend_outline) ≡ backend_outline
unfolding trim_space
outline_small u = lower_small u backend_outline (ground arith)

amnezia_small : (u : Unicode) → lower u (trim_space backend_amnezia) ≡ backend_amnezia
unfolding trim_space
amnezia_small u = lower_small u backend_amnezia (ground arith)

pub normalize-outline : (u : Unicode) → normalize u backend_outline ≡ backend_outline
unfolding normalize
normalize-outline u = rw (outline_small u)

pub normalize-amnezia : (u : Unicode) → normalize u backend_amnezia ≡ backend_amnezia
unfolding normalize
normalize-amnezia u = rw (amnezia_small u)

lower-trim_idem :
    (u : Unicode) (s : Text)
    → lower u (trim_space (lower u (trim_space s))) ≡ lower u (trim_space s)
lower-trim_idem u s =
    ap (lower u) (trim_space-lower u (trim_space s) ∙ ap (lower u) (trim_space_idem s))
    ∙ lower_idem u (trim_space s)

-- The name is an alias, and its meaning is known, or it is only trimmed and put in lower case.
normalize-cases :
    (u : Unicode) (s : Text)
    → (normalize u s ≡ backend_outline)
      ⊎ (normalize u s ≡ backend_amnezia)
      ⊎ ((normalize u s ≡ lower u (trim_space s))
          × (normalize u (lower u (trim_space s)) ≡ lower u (trim_space s)))
unfolding normalize
normalize-cases u s = rw (lower-trim_idem u s) (ground arith)

-- `Normalize` is idempotent: what it returns names the same backend, or the same unknown one.
pub normalize_idem : (u : Unicode) (s : Text) → normalize u (normalize u s) ≡ normalize u s
normalize_idem u s = elim (normalize-cases u s) [
  | inl o ↦ rw (o, normalize-outline u)
  | inr (inl a) ↦ rw (a, normalize-amnezia u)
  | inr (inr (e, f)) ↦ rw (e, f)
]

-- A name that `SetBackend` accepts for this multiplexer.
abbrev pub Accepts : {D W : Type 0} → Unicode → Text → Mux D W → Type 0
Accepts u name m =
    (normalize u name ≡ backend_outline)
    ⊎ ((normalize u name ≡ backend_amnezia) × (m.amnezia ≢ none))

module _ {D W : Type 0} (u : Unicode) (name : Text) (m : Mux D W) where
  -- An accepted name switches to its backend and changes nothing else; any other name is an error.
  pub set_backend-cases :
      (Accepts u name m × (set_backend u name m ≡ ok (record m { backend = normalize u name })))
      ⊎ ((¬ Accepts u name m)
          × ((set_backend u name m ≡ err (unknown_backend (normalize u name)))
              ⊎ (set_backend u name m ≡ err amnezia_missing)))
  unfolding set_backend
  set_backend-cases = ground (
    arith,
    text_eq_iff (normalize u name) backend_outline,
    text_eq_iff (normalize u name) backend_amnezia,
  )

-- What a multiplexer dials with: the dialer of the backend that it names.
abbrev pub Dials : {D W : Type 0} → D → Mux D W → Type 0
Dials {D} d m =
    ((backend_of m ≡ backend_outline) × (dial_with m ≡ ok d))
    ⊎ ((backend_of m ≡ backend_amnezia) × ((x : D) × (m.amnezia ≡ some x) × (dial_with m ≡ ok x)))

module _ {D W : Type 0} (u : Unicode) where
  -- A caller that ignores the error, as `main` does on its way back to Outline: the old value stays.
  abbrev pub switch_to : Text → Mux D W → Mux D W
  switch_to name m = elim (set_backend u name m) [ ok m' ↦ m' | err e ↦ m ]

  abbrev pub switch_all : List Text → Mux D W → Mux D W
  switch_all [] m = m
  switch_all (n ∷ ns) m = switch_all ns (switch_to n m)

  -- The backend is one of the two, and Amnezia only where its dialer is there.
  abbrev pub IsWired : Mux D W → Type 0
  IsWired m = (m.backend ≡ backend_outline) ⊎ ((m.backend ≡ backend_amnezia) × (m.amnezia ≢ none))

  switch_to-IsWired :
      (o : Option D) (name : Text) (m : Mux D W)
      → m.outline ≡ o
      → IsWired m
      → ((switch_to name m).outline ≡ o) × IsWired (switch_to name m)
  switch_to-IsWired o name m e w = ground (arith, set_backend-cases u name m)

  switch_all-IsWired :
      (o : Option D) (names : List Text) (m : Mux D W)
      → m.outline ≡ o
      → IsWired m
      → ((switch_all names m).outline ≡ o) × IsWired (switch_all names m)
  switch_all-IsWired o [] m e w = (e, w)
  switch_all-IsWired o (n ∷ ns) m e w =
      let (e', w') = switch_to-IsWired o n m e w in switch_all-IsWired o ns (switch_to n m) e' w'

  dial_with-IsWired : (d : D) (m : Mux D W) → m.outline ≡ some d → IsWired m → Dials d m
  unfolding active
  dial_with-IsWired d m e (inl o) = inl (rw o, rw (o, e))
  dial_with-IsWired d m e (inr (a, some_dialer)) = elim (Option-cases m.amnezia) [
    | inl n ↦ absurd (some_dialer n)
    | inr (x, s) ↦ inr (rw a, (x, s, rw (a, s)))
  ]

  -- After any switches of a new multiplexer that has an Outline dialer, a dial goes to the dialer of the
  -- backend that it names; it is never without one.
  pub switch_all-Dials :
      (d : D) (amnezia : Option D) (r s : Option (W → Bool)) (i j : Option (W → IpAddr))
      (names : List Text)
      → Dials d (switch_all names (new_mux (some d) amnezia r s i j))
  switch_all-Dials d amnezia r s i j names =
      let m : Mux D W = new_mux (some d) amnezia r s i j in
      let (e, w) = switch_all-IsWired (some d) names m refl (inl refl) in
      dial_with-IsWired d (switch_all names m) e w
