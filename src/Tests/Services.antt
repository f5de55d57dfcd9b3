-- ===== src/Tests/Services.antt =====
-- internal/dnsdoh/server.go, internal/metrics/metrics.go: a query whose upstream fails, and connections.
use outline_gate.Prelude.{◌≡◌, ◌⊎◌, refl, true, false, List, [], ◌∷◌, ◌++◌, some, none, arith, take}
use outline_gate.Go.Text.{codes}
use outline_gate.Go.Ip.{Bytes}
use outline_gate.Dns.{Client, Times, resolve, servfail, id_of, handle_tcp}
use outline_gate.Dns.Answers.{FairSize, Written, handle_tcp-framed}
use outline_gate.Metrics.Totals.{Seen, observed, Agrees, observed-Agrees}

abbrev silent : Client
silent q = none

abbrev query : Bytes
query = 171 ∷ 205 ∷ 1 ∷ 0 ∷ 0 ∷ 1 ∷ 0 ∷ 0 ∷ 0 ∷ 0 ∷ 0 ∷ 0 ∷ []

-- An upstream that fails at once, and one that hangs.
abbrev prompt : Times
prompt = record { header = 1; query = 2; first_write = 3; second_write = 4 }

abbrev slow : Times
slow = record { header = 1; query = 2; first_write = 12; second_write = 12 }

handle_tcp-framed_example :
    (r : Bytes) × ((resolve silent query ≡ some r)
      ⊎ ((resolve silent query ≡ none) × (take 2 r ≡ id_of query)))
    × FairSize r
    × Written 10 prompt r (handle_tcp 10 prompt silent (0 ∷ 12 ∷ (query ++ [])))
handle_tcp-framed_example =
    handle_tcp-framed 10 prompt silent query [] (omega arith) (omega arith) (omega arith)
      (omega arith) (omega arith)

answer_lost : handle_tcp 10 slow silent (0 ∷ 12 ∷ query) ≡ []
unfolding handle_tcp
answer_lost = refl

failure_kept : servfail query ≡ 171 ∷ 205 ∷ 129 ∷ 2 ∷ 0 ∷ 0 ∷ 0 ∷ 0 ∷ 0 ∷ 0 ∷ 0 ∷ 0 ∷ []
unfolding servfail
failure_kept = refl

abbrev seen : List Seen
seen =
    record { proto = codes "socks"; via = codes "tunnel"; good = true }
    ∷ record { proto = codes "l3"; via = codes "direct"; good = false }
    ∷ record { proto = codes "l3"; via = codes "drop"; good = false }
    ∷ []

observed-Agrees_example : Agrees seen (observed seen)
observed-Agrees_example = observed-Agrees seen
