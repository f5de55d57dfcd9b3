-- ===== src/Connlog/Valid.antt =====
-- internal/connlog/store.go: the invariant of the connection log, and the exact effect of `Record`.
use outline_gate.Prelude.{
  ℕ, ◌≤◌, ◌<◌, ◌≡◌, refl, not, ◌&&◌, List, [], ◌∷◌, ◌++◌, some, map, arith, ltb, if◌then◌else◌,
  length, drop, last_n, length-append, length-drop, All,
}
use outline_gate.Connlog.Types.{Event, Chan, Store}
use outline_gate.Connlog.Methods.{stale, chan_size, fan_out, stamp, next_seq, record_event}
use outline_gate.Connlog.Ring.{cutoff, stale-le, pruned, prune-eq, append_ring-eq}

-- A channel is closed exactly when it is no key of `subs`, and holds no more than its buffer.
abbrev pub IsSound : Chan → Type 0
IsSound c = (c.closed ≡ not c.subscribed) × (length c.queue ≤ chan_size)

pub record IsValid (s : Store) : Type 0 where
  pub cap_pos : 0 < s.cap
  pub bounded : length s.buf ≤ s.cap
  pub sound : All IsSound s.subs

-- What one event does to one channel: a subscriber with room gets it, any other misses it.
abbrev pub deliver : Event → Chan → Chan
deliver e c =
    if c.subscribed && ltb (length c.queue) chan_size
    then record c { queue = c.queue ++ e ∷ [] }
    else c

-- The live part of the buffer at a time: what `pruneLocked` keeps.
abbrev pub live : ℕ → Store → List Event
live now s = drop (stale (cutoff s.ttl now) s.buf) s.buf

pub fan_out-eq :
    (e : Event) (cs : List Chan) → All IsSound cs → fan_out e cs ≡ some (map (deliver e) cs)
unfolding fan_out
fan_out-eq e [] h = refl
fan_out-eq e (c ∷ cs) h = ground (arith, fan_out-eq e cs h.1)

deliver-IsSound : (e : Event) (c : Chan) → IsSound c → IsSound (deliver e c)
deliver-IsSound e c h = ground (arith, length-append c.queue (e ∷ []))

pub map-deliver-IsSound :
    (e : Event) (cs : List Chan) → All IsSound cs → All IsSound (map (deliver e) cs)
map-deliver-IsSound e [] h = tt
map-deliver-IsSound e (c ∷ cs) h = (deliver-IsSound e c h.0, map-deliver-IsSound e cs h.1)

pub pruned-IsValid : (now : ℕ) (s : Store) → IsValid s → IsValid (pruned now s)
pruned-IsValid now s v = record {
  cap_pos = v.cap_pos;
  bounded = omega (arith, v.bounded, length-drop (stale (cutoff s.ttl now) s.buf) s.buf);
  sound = v.sound;
}

-- The store after `Record`, in one equation.
abbrev pub recorded : ℕ → Event → Store → Store
recorded now e s =
    let stored = stamp now (next_seq s.seq) e in
    record s {
      buf = last_n s.cap (live stored.time s ++ stored ∷ []);
      seq = next_seq s.seq;
      subs = map (deliver stored) s.subs;
    }

-- On a valid store `Record` does not panic: it drops the events that are too old, appends the event with
-- the next identifier and, if it has none, the current time, keeps the last `cap`, and gives it to each
-- subscriber that has room.
pub record_event_lem :
    (now : ℕ) (e : Event) (s : Store)
    → IsValid s
    → record_event now e s ≡ some (recorded now e s, stamp now (next_seq s.seq) e)
unfolding record_event
record_event_lem now e s v =
    let q = stamp now (next_seq s.seq) e in
    let bound = stale-le (cutoff s.ttl q.time) s.buf in
    let small = length-drop (stale (cutoff s.ttl q.time) s.buf) s.buf in
    rw (
      prune-eq,
      append_ring-eq s.cap q (live q.time s) v.cap_pos (omega (arith, v.bounded, small)),
      fan_out-eq q s.subs v.sound,
    )
