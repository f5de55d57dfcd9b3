-- ===== src/Connlog/Methods.antt =====
-- internal/connlog/store.go: the methods of `Store`. Its mutex makes each of them atomic, so a
-- method is a function from the store to the new store. `none` is a panic of the Go runtime: a send
-- on a closed channel, a second close, an index or a slice bound that is negative or out of range. `time.Now` is an argument. The
-- receiver is a store: the guards `s == nil` have no counterpart.
use outline_gate.Prelude.{
  ℕ, zero, suc, ◌+◌, ◌-◌, ◌%◌, ◌^◌, Bool, true, false, not, ◌&&◌, ◌||◌, List, [], ◌∷◌, ◌++◌, Option,
  none, some, ltb, leb, ◌==◌, if◌then◌else◌, length, drop, take, ℤ, pos_part,
}
use outline_gate.Go.Text.{Text, text_eq}
use outline_gate.Go.Unicode.{Unicode, lower}
use outline_gate.Connlog.Types.{
  Event, Chan, Store, proto_socks, proto_l3, via_tunnel, via_direct, via_drop,
}

infixl 5 ◌>>=◌
abbrev pub ◌>>=◌ {ℓ κ} : {A : Type ℓ} {B : Type κ} → Option A → (A → Option B) → Option B
none >>= f = none
some a >>= f = f a

-- `DefaultTTL`, an hour.
abbrev pub default_ttl : ℕ
default_ttl = 3_600_000_000_000

unfoldable pub new_with_ttl : ℤ → ℤ → Store
new_with_ttl capacity ttl = record {
  cap = if pos_part capacity == 0 then 500 else pos_part capacity;
  ttl = ttl;
  buf = [];
  seq = 0;
  subs = [];
}

unfoldable pub new : ℤ → Store
unfolding new_with_ttl
new capacity = new_with_ttl capacity (ℤ.pos default_ttl)

abbrev pub capacity_of : Store → ℕ
capacity_of s = s.cap

-- The loop of `pruneLocked`: how many events at the front are before the cutoff.
abbrev pub stale : ℕ → List Event → ℕ
stale cutoff [] = 0
stale cutoff (e ∷ es) = if ltb e.time cutoff then suc (stale cutoff es) else 0

-- An index that is a difference: a negative one panics.
abbrev pub index : ℕ → ℕ → Option ℕ
index n i = if ltb n i then none else some (n - i)

-- `buf[i:]`, and `buf[:k]`, whose bound is taken to be the length: Go's is the capacity, which is no less.
abbrev pub slice_from : ℕ → List Event → Option (List Event)
slice_from i buf = if ltb (length buf) i then none else some (drop i buf)

abbrev pub slice_to : ℕ → List Event → Option (List Event)
slice_to k buf = if ltb (length buf) k then none else some (take k buf)

-- `copy(buf[0:], tail)`: the front is overwritten, the places behind it stay.
abbrev pub copied : List Event → List Event → List Event
copied tail buf = tail ++ drop (length tail) buf

-- The end of `pruneLocked`, for `i` events that are too old.
abbrev pub cut_front : ℕ → List Event → Option (List Event)
cut_front i buf =
    if i == 0
    then some buf
    else if leb (length buf) i
    then some []
    else do tail ← slice_from i buf; k ← index (length buf) i; slice_to k (copied tail buf)

-- `pruneLocked`. A cutoff before the zero time is 0 here: no time is before either.
unfoldable pub prune : ℕ → Store → Option Store
prune now s = if pos_part s.ttl == 0 || length s.buf == 0 then some s else do
  buf ← cut_front (stale (now - pos_part s.ttl) s.buf) s.buf
  some (record s { buf = buf })

-- The write to the ring in `Record`; the last index of an empty buffer is out of range.
abbrev pub append_ring : ℕ → Event → List Event → Option (List Event)
append_ring cap e buf = if ltb (length buf) cap then some (buf ++ e ∷ []) else do
  tail ← slice_from 1 buf
  last ← index (length buf) 1
  some (take last (copied tail buf) ++ e ∷ [])

abbrev pub chan_size : ℕ
chan_size = 32

-- `select { case ch <- e: default: }`.
abbrev pub send : Event → Chan → Option Chan
send e c =
    if c.closed
    then none
    else if ltb (length c.queue) chan_size
    then some (record c { queue = c.queue ++ e ∷ [] })
    else some c

-- The loop over the keys of `subs`. The order of a Go map does not matter: no send sees another.
unfoldable pub fan_out : Event → List Chan → Option (List Chan)
fan_out e [] = some []
fan_out e (c ∷ cs) = do
  d ← if c.subscribed then send e c else some c
  ds ← fan_out e cs
  some (d ∷ ds)

-- The event as `Record` stores it, under the sequence number `seq`.
abbrev pub stamp : ℕ → ℕ → Event → Event
stamp now seq e = record e { id = seq; time = if e.time == 0 then now else e.time }

abbrev pub next_seq : ℕ → ℕ
next_seq seq = (seq + 1) % 2 ^ 64

-- `Record`.
unfoldable pub record_event : ℕ → Event → Store → Option (Store × Event)
record_event now e s = do
  let stored = stamp now (next_seq s.seq) e
  p ← prune stored.time (record s { seq = next_seq s.seq })
  buf ← append_ring p.cap stored p.buf
  subs ← fan_out stored p.subs
  some (record p { buf = buf; subs = subs }, stored)

-- `Len`.
unfoldable pub len : ℕ → Store → Option (Store × ℕ)
len now s = do p ← prune now s; some (p, length p.buf)

-- `Snapshot`, from the buffer behind its pruning.
abbrev pub last_events : ℤ → List Event → Option (List Event)
last_events limit buf =
    let n = length buf in
    let l = pos_part limit in
    let count = if l == 0 || ltb n l then n else l in
    if n == 0
    then some []
    else do start ← index n count; tail ← slice_from start buf; some (take count tail)

unfoldable pub snapshot : ℕ → ℤ → Store → Option (Store × List Event)
snapshot now limit s = do p ← prune now s; out ← last_events limit p.buf; some (p, out)

pub record Counts : Type 0 where
  pub total : ℕ
  pub vpn : ℕ
  pub direct : ℕ
  pub ok : ℕ
  pub fail : ℕ

-- The body of the loop of `Stats`.
abbrev pub tally : ℕ → Counts → Event → Counts
tally since c e =
    if not (since == 0) && ltb e.time since
    then c
    else let c' = record c { total = c.total + 1 } in
      let d =
        if text_eq e.via via_direct
        then record c' { direct = c'.direct + 1 }
        else if text_eq e.via via_drop
        then c'
        else record c' { vpn = c'.vpn + 1 } in
      if e.ok then record d { ok = d.ok + 1 } else record d { fail = d.fail + 1 }

unfoldable pub tally_all : ℕ → Counts → List Event → Counts
tally_all since c [] = c
tally_all since c (e ∷ es) = tally_all since (tally since c e) es

abbrev pub no_counts : Counts
no_counts = record { total = 0; vpn = 0; direct = 0; ok = 0; fail = 0 }

-- `Stats`.
unfoldable pub stats : ℕ → ℕ → Store → Option (Store × Counts)
stats now since s = do p ← prune now s; some (p, tally_all since no_counts p.buf)

-- `Subscribe`: the new channel stands last; its place is the handle of the unsubscribe function.
unfoldable pub subscribe : Store → Store × ℕ
subscribe s = (
  record s { subs = s.subs ++ record { queue = []; subscribed = true; closed = false } ∷ [] },
  length s.subs,
)

-- `delete(s.subs, ch); close(ch)` under its guard, on one channel.
abbrev pub drop_sub : Chan → Option Chan
drop_sub c =
    if c.subscribed
    then if c.closed then none else some (record c { subscribed = false; closed = true })
    else some c

unfoldable pub drop_sub_at : ℕ → List Chan → Option (List Chan)
drop_sub_at i [] = some []
drop_sub_at zero (c ∷ cs) = do d ← drop_sub c; some (d ∷ cs)
drop_sub_at (suc i) (c ∷ cs) = do ds ← drop_sub_at i cs; some (c ∷ ds)

-- The function that `Subscribe` returns, for the channel at place `i`.
unfoldable pub unsubscribe : ℕ → Store → Option Store
unsubscribe i s = do subs ← drop_sub_at i s.subs; some (record s { subs = subs })

-- `FromFields`.
abbrev pub proto_of : Unicode → Text → Text
proto_of u proto =
    let p = lower u proto in
    if not (text_eq p proto_socks) && not (text_eq p proto_l3) then proto else p

abbrev pub via_of : Unicode → Text → Text
via_of u via =
    let v = lower u via in
    if text_eq v via_tunnel || text_eq v via_direct || text_eq v via_drop then v else via_tunnel

unfoldable pub from_fields :
    Unicode
    → ℕ
    → (proto client_ip target host : Text) → ℕ
    → (via rule : Text) → Bool
    → Text
    → ℕ
    → Store
    → Option (Store × Event)
from_fields u now proto client_ip target host port via rule ok err_msg duration_ms =
    record_event now (record {
      id = 0;
      time = 0;
      proto = proto_of u proto;
      client_ip = client_ip;
      target = target;
      host = host;
      port = port;
      via = via_of u via;
      rule = rule;
      ok = ok;
      error = err_msg;
      duration_ms = duration_ms;
    })
