-- ===== src/Go/HostPortLaws.antt =====
-- A host and a port that were joined are split again.
use outline_gate.Prelude.{
  ℕ, zero, suc, ◌+◌, ◌-◌, if-both, ◌/◌, ◌%◌, ◌≡◌, refl, ap, ◌∙◌, false, [], ◌∷◌, ◌++◌, some, arith,
  ltb, ◌==◌, if◌then◌else◌,
}
use outline_gate.Go.Text.{Text, contains}
use outline_gate.Go.IpString.{itoa, digits_onto}
use outline_gate.Go.HostPort.{
  cut, cut_cons, checked, plain, split_with, split_host_port, join_host_port,
}
use outline_gate.Go.Ip4Text.{AllDecimal, contains-only}

digits_onto-AllDecimal :
    (fuel n : ℕ) (acc : Text) → AllDecimal acc → AllDecimal (digits_onto fuel 10 n acc)
unfolding digits_onto
digits_onto-AllDecimal zero n acc h = h
digits_onto-AllDecimal (suc fuel) n acc h =
    let d : ℕ = n % 10 in
    let out : Text = (if ltb d 10 then b'0' + d else b'a' + (d - 10)) ∷ acc in
    let digit : AllDecimal out = (ground arith, h) in
    if-both AllDecimal (ltb n 10) out _ digit (digits_onto-AllDecimal fuel (n / 10) out digit)

-- The digits of any number are decimal.
pub AllDecimal-itoa : (n : ℕ) → AllDecimal (itoa n)
unfolding itoa
AllDecimal-itoa n = digits_onto-AllDecimal 20 n [] tt

cut-append :
    (sep : ℕ) (s rest : Text) → contains s sep ≡ false → cut sep (s ++ sep ∷ rest) ≡ some (s, rest)
unfolding cut
cut-append sep [] rest h = ground arith
cut-append sep (c ∷ s) rest h =
    let other : (c == sep) ≡ false = ground arith in
    rw other (ap (cut_cons c) (cut-append sep s rest (ground arith)))

checked_lem :
    (host port : Text)
    → contains host b'[' ≡ false
    → AllDecimal port
    → checked host port ≡ some (host, port)
checked_lem host port q d =
    rw
      (
        contains-only b':' port refl d,
        q,
        contains-only b'[' port refl d,
        contains-only b']' port refl d,
      )
      refl

-- The branch without a bracket.
split-plain :
    (c : ℕ) (s : Text) (w : Text × Text)
    → (c == b'[') ≡ false
    → cut b':' (c ∷ s) ≡ some w
    → split_host_port (c ∷ s) ≡ plain w
unfolding split_host_port
split-plain c s w h e = rw h (ap (split_with plain) e)

-- A host with no colon and no bracket, and a port of decimal digits.
pub split_host_port-join :
    (host port : Text)
    → contains host b':' ≡ false
    → contains host b'[' ≡ false
    → contains host b']' ≡ false
    → AllDecimal port
    → split_host_port (join_host_port host port) ≡ some (host, port)
unfolding join_host_port
split_host_port-join [] port p q r d =
    split-plain b':' port ([], port) refl (cut-append b':' [] port refl)
    ∙ checked_lem [] port refl d
split_host_port-join (c ∷ host) port p q r d =
    let first : (c == b'[') ≡ false = ground arith in
    rw p (
      split-plain c (host ++ b':' ∷ port) (c ∷ host, port) first (cut-append b':' (c ∷ host) port p)
      ∙ rw r (checked_lem (c ∷ host) port q d))
