-- ===== src/Connlog/Session.antt =====
-- internal/connlog/store.go: any sequence of calls on one store. Concurrent callers are such a
-- sequence, since every method holds the mutex; a consumer's receive is one more step.
use outline_gate.Prelude.{
  ℕ, zero, suc, ◌-◌, ◌≡◌, refl, true, false, List, [], ◌∷◌, ◌++◌, Option, some, arith,
  if◌then◌else◌, length, length-drop, All, All-append, ℤ,
}
use outline_gate.Connlog.Types.{Event, Chan, Store}
use outline_gate.Connlog.Methods.{
  record_event, new_with_ttl, len, snapshot, stats, subscribe, drop_sub, drop_sub_at, unsubscribe,
  ◌>>=◌, next_seq, stamp,
}
use outline_gate.Connlog.Valid.{
  IsSound, IsValid, pruned-IsValid, recorded, record_event_lem, map-deliver-IsSound, live,
}
use outline_gate.Connlog.Reads.{snapshot_lem, stats_lem}

pub data Call : Type 0 where
  records : ℕ → Event → Call
  reads_len : ℕ → Call
  reads_snapshot : ℕ → ℤ → Call
  reads_stats : ℕ → ℕ → Call
  subscribes : Call
  unsubscribes : ℕ → Call
  receives : ℕ → Call

-- A consumer takes the oldest event of its channel, if there is one.
abbrev pub receive : List Event → List Event
receive [] = []
receive (e ∷ es) = es

unfoldable pub receive_at : ℕ → List Chan → List Chan
receive_at i [] = []
receive_at zero (c ∷ cs) = record c { queue = receive c.queue } ∷ cs
receive_at (suc i) (c ∷ cs) = c ∷ receive_at i cs

unfoldable pub step : Store → Call → Option Store
step s (records now e) = do (t, stored) ← record_event now e s; some t
step s (reads_len now) = do (t, n) ← len now s; some t
step s (reads_snapshot now limit) = do (t, es) ← snapshot now limit s; some t
step s (reads_stats now since) = do (t, c) ← stats now since s; some t
step s subscribes = some (subscribe s).0
step s (unsubscribes i) = unsubscribe i s
step s (receives i) = some (record s { subs = receive_at i s.subs })

unfoldable pub run : Store → List Call → Option Store
run s [] = some s
run s (c ∷ cs) = do t ← step s c; run t cs

pub new_with_ttl-IsValid : (capacity ttl : ℤ) → IsValid (new_with_ttl capacity ttl)
unfolding new_with_ttl
new_with_ttl-IsValid capacity ttl = ground arith

pub recorded-IsValid : (now : ℕ) (e : Event) (s : Store) → IsValid s → IsValid (recorded now e s)
recorded-IsValid now e s v =
    let q = stamp now (next_seq s.seq) e in
    record {
      cap_pos = v.cap_pos;
      bounded = omega (
        arith,
        v.cap_pos,
        length-drop (length (live q.time s ++ q ∷ []) - s.cap) (live q.time s ++ q ∷ []),
      );
      sound = map-deliver-IsSound q s.subs v.sound;
    }

subscribe-IsValid : (s : Store) → IsValid s → IsValid (subscribe s).0
unfolding subscribe
subscribe-IsValid s v = record {
  cap_pos = v.cap_pos;
  bounded = v.bounded;
  sound = All-append IsSound s.subs _ v.sound ((refl, omega arith), tt);
}

abbrev closed_sub : Chan → Chan
closed_sub c = if c.subscribed then record c { subscribed = false; closed = true } else c

drop_sub_lem : (c : Chan) → IsSound c → (drop_sub c ≡ some (closed_sub c)) × IsSound (closed_sub c)
drop_sub_lem c h = ground arith

-- Closing one channel for good, once.
pub drop_sub_at_total :
    (i : ℕ) (cs : List Chan)
    → All IsSound cs
    → (ds : List Chan) × (drop_sub_at i cs ≡ some ds) × All IsSound ds
unfolding drop_sub_at
drop_sub_at_total zero [] h = ([], refl, tt)
drop_sub_at_total (suc i) [] h = ([], refl, tt)
drop_sub_at_total zero (c ∷ cs) h =
    let (e, k) = drop_sub_lem c h.0 in (closed_sub c ∷ cs, rw e, (k, h.1))
drop_sub_at_total (suc i) (c ∷ cs) h =
    let (ds, e, k) = drop_sub_at_total i cs h.1 in (c ∷ ds, rw e, (h.0, k))

receive_at-IsSound : (i : ℕ) (cs : List Chan) → All IsSound cs → All IsSound (receive_at i cs)
unfolding receive_at
receive_at-IsSound zero [] h = tt
receive_at-IsSound (suc i) [] h = tt
receive_at-IsSound zero (c ∷ cs) h = ground arith
receive_at-IsSound (suc i) (c ∷ cs) h = (h.0, receive_at-IsSound i cs h.1)

abbrev pub Lives : Option Store → Type 0
Lives r = (t : Store) × (r ≡ some t) × IsValid t

pub step-IsValid : (s : Store) (c : Call) → IsValid s → Lives (step s c)
unfolding step unsubscribe
step-IsValid s (records now e) v =
    (recorded now e s, rw (record_event_lem now e s v), recorded-IsValid now e s v)
step-IsValid s (reads_len now) v = (_, rw (snapshot_lem now (ℤ.pos 0) s).0, pruned-IsValid now s v)
step-IsValid s (reads_snapshot now limit) v =
    (_, rw (snapshot_lem now limit s).1, pruned-IsValid now s v)
step-IsValid s (reads_stats now since) v = (_, rw (stats_lem now since s).0, pruned-IsValid now s v)
step-IsValid s subscribes v = (_, refl, subscribe-IsValid s v)
step-IsValid s (unsubscribes i) v =
    let (ds, e, k) = drop_sub_at_total i s.subs v.sound in
    (record s { subs = ds }, rw e, record { cap_pos = v.cap_pos; bounded = v.bounded; sound = k })
step-IsValid s (receives i) v = (
  _,
  refl,
  record { cap_pos = v.cap_pos; bounded = v.bounded; sound = receive_at-IsSound i s.subs v.sound },
)

-- From a valid store, no sequence of calls panics, be it on a channel or at the bound of a slice, and the
-- store is valid after it.
pub run-IsValid : (s : Store) (cs : List Call) → IsValid s → Lives (run s cs)
unfolding run
run-IsValid s [] v = (s, refl, v)
run-IsValid s (c ∷ cs) v =
    let (t, e, w) = step-IsValid s c v in let (r, f, x) = run-IsValid t cs w in (r, rw e f, x)
