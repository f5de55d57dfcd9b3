-- ===== src/Tests/Log.antt =====
-- internal/connlog/store.go: a small connection log.
use outline_gate.Prelude.{
  ℕ, ◌≡◌, refl, Bool, true, false, List, [], ◌∷◌, Option, some, none, map, pos, arith,
}
use outline_gate.Go.Text.{Text, codes}
use outline_gate.Connlog.Types.{Event, Store, proto_socks, via_tunnel}
use outline_gate.Connlog.Methods.{
  new_with_ttl, record_event, snapshot, prune, stamp, subscribe, fan_out, unsubscribe, drop_sub_at,
}
use outline_gate.Connlog.Valid.{IsValid}
use outline_gate.Connlog.Session.{
  Call, records, subscribes, unsubscribes, receives, reads_snapshot, step, run, receive_at,
  run-IsValid, new_with_ttl-IsValid, Lives,
}
use outline_gate.Connlog.History.{record_all, stamped, IsChronological, record_all-fresh}
use outline_gate.Connlog.Order.{IsNumbered, run-IsNumbered, record_all-received, received}

-- An event of a client, without a time or an identifier.
abbrev visit : Text → Bool → Event
visit host good = record {
  id = 0;
  time = 0;
  proto = proto_socks;
  client_ip = codes "10.0.0.7";
  target = [];
  host = host;
  port = 443;
  via = via_tunnel;
  rule = [];
  ok = good;
  error = [];
  duration_ms = 12;
}

abbrev ring : Store
ring = new_with_ttl (pos 2) (pos 10)

abbrev three : List (ℕ × Event)
three =
    (1, visit (codes "a.example") true)
    ∷ (5, visit (codes "b.example") false)
    ∷ (12, visit (codes "c.example") true)
    ∷ []

abbrev calls : List Call
calls =
    subscribes
    ∷ records 1 (visit (codes "a.example") true)
    ∷ receives 0
    ∷ unsubscribes 0
    ∷ unsubscribes 0
    ∷ records 5 (visit (codes "b.example") false)
    ∷ reads_snapshot 30 (pos 5)
    ∷ []

ids : Option Store → List ℕ
ids none = []
ids (some s) = map (λ e. e.id) s.buf

-- The first event is pushed out; the last call drops both others, which are too old by then.
runs :
    (ids (run ring calls) ≡ [])
    × (ids (
          run ring (
            records 1 (visit [] true)
            ∷ records 5 (visit [] true)
            ∷ records 12 (visit [] true)
            ∷ []))
        ≡ 2 ∷ 3 ∷ [])
unfolding ids run step record_event snapshot prune new_with_ttl subscribe fan_out unsubscribe
    drop_sub_at receive_at
runs = (refl, refl)

abbrev log : List Event
log = stamped 0 three

log-IsChronological : IsChronological log
log-IsChronological = ground arith

record_all-fresh_example :
    (t : Store) × (record_all ring three ≡ some (t, log))
    × (t.buf
        ≡ stamp 5 2 (visit (codes "b.example") false)
          ∷ stamp 12 3 (visit (codes "c.example") true)
          ∷ [])
unfolding new_with_ttl
record_all-fresh_example = record_all-fresh (pos 2) (pos 10) three log-IsChronological

abbrev ring-IsValid : IsValid ring
ring-IsValid = new_with_ttl-IsValid (pos 2) (pos 10)

run-IsValid_example : Lives (run ring calls)
run-IsValid_example = run-IsValid ring calls ring-IsValid

-- A store with one subscriber, which has two events waiting.
abbrev watched : Store
watched = record ring { subs = record { queue = log; subscribed = true; closed = false } ∷ [] }

watched-IsValid : IsValid watched
unfolding new_with_ttl
watched-IsValid = ground arith

record_all-received_example :
    (t : Store) × (record_all watched three ≡ some (t, stamped watched.seq three))
    × (t.subs ≡ map (received (stamped watched.seq three)) watched.subs)
record_all-received_example = record_all-received watched three watched-IsValid

ring-IsNumbered : IsNumbered ring
unfolding new_with_ttl
ring-IsNumbered = record { rises = tt; below = tt }

run-IsNumbered_example : (t : Store) × (run ring calls ≡ some t) × IsNumbered t
unfolding new_with_ttl
run-IsNumbered_example = run-IsNumbered ring calls ring-IsValid ring-IsNumbered (omega arith)

abbrev full : Store
full = record ring { buf = log }
