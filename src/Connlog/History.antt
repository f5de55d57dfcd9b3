-- ===== src/Connlog/History.antt =====
-- internal/connlog/store.go: the ring against the whole history of recorded events.
use Prim.Native.Nat.{max}
use outline_gate.Prelude.{
  ℕ, zero, suc, ◌+◌, ◌-◌, ◌≤◌, ◌<◌, ◌≡◌, refl, sym, List, [], ◌∷◌, ◌++◌, Option, some, arith, ltb,
  if◌then◌else◌, length, drop, last_n, length-append, length-drop, drop-drop, drop-nil, drop-append,
  append-nil, append_assoc, All, ℤ,
}
use outline_gate.Connlog.Types.{Event, Store}
use outline_gate.Connlog.Methods.{stale, record_event, new_with_ttl, ◌>>=◌, next_seq, stamp}
use outline_gate.Connlog.Ring.{cutoff, stale-le}
use outline_gate.Connlog.Valid.{IsValid, recorded, record_event_lem}
use outline_gate.Connlog.Session.{new_with_ttl-IsValid, recorded-IsValid}

-- Oldest first.
abbrev pub IsChronological : List Event → Type 0
IsChronological [] = Unit {0}
IsChronological (e ∷ es) = All (λ f. e.time ≤ f.time) es × IsChronological es

-- The time of the newest event, or `t` for an empty history.
abbrev pub last_time : ℕ → List Event → ℕ
last_time t [] = t
last_time t (e ∷ es) = last_time e.time es

-- What the ring should hold of a history: nothing before the cutoff, and at most `cap` events.
abbrev pub retained : ℕ → ℕ → List Event → List Event
retained cap limit h = drop (max (stale limit h) (length h - cap)) h

stale-none : (c t : ℕ) (xs : List Event) → c ≤ t → All (λ f. t ≤ f.time) xs → stale c xs ≡ 0
stale-none c t [] h a = refl
stale-none c t (x ∷ xs) h a = ground arith

stale-drop : (c m : ℕ) (xs : List Event) → IsChronological xs → stale c (drop m xs) ≡ stale c xs - m
stale-drop c zero xs h = omega arith
stale-drop c (suc m) [] h = omega arith
stale-drop c (suc m) (x ∷ xs) h = ground (arith, stale-drop c m xs h.1, stale-none c x.time xs)

stale_mono : (c d : ℕ) (xs : List Event) → c ≤ d → stale c xs ≤ stale d xs
stale_mono c d [] h = omega arith
stale_mono c d (x ∷ xs) h = ground (arith, stale_mono c d xs h)

stale-append :
    (c : ℕ) (xs : List Event) (e : Event) → c ≤ e.time → stale c (xs ++ e ∷ []) ≡ stale c xs
stale-append c [] e h = ground arith
stale-append c (x ∷ xs) e h = ground (arith, stale-append c xs e h)

cutoff-le : (ttl : ℤ) (now : ℕ) → cutoff ttl now ≤ now
cutoff-le ttl now = ground arith

-- Two drops, an append and a cut at `cap` are one drop.
last_n-drop-append :
    (cap n k m : ℕ) (h : List Event) (e : Event)
    → k + n ≤ length h
    → m ≡ k + n + (suc (length h) - (k + n) - cap)
    → last_n cap (drop n (drop k h) ++ e ∷ []) ≡ drop m (h ++ e ∷ [])
last_n-drop-append cap n k m h e b eq =
    let y : drop n (drop k h) ++ e ∷ [] ≡ drop (k + n) (h ++ e ∷ []) =
      rw (drop-drop n k h) (sym (drop-append (k + n) h (e ∷ []) b)) in
    let l : length (drop (k + n) (h ++ e ∷ [])) ≡ suc (length h) - (k + n) =
      omega (arith, length-drop (k + n) (h ++ e ∷ []), length-append h (e ∷ [])) in
    rw (y, drop-drop, l, eq)

-- One more event: pruning and overwriting the retained part is retaining of the longer history.
retained-append :
    (cap c d : ℕ) (h : List Event) (e : Event)
    → 0 < cap
    → IsChronological h
    → c ≤ d
    → d ≤ e.time
    → let b = retained cap c h in
      last_n cap (drop (stale d b) b ++ e ∷ []) ≡ retained cap d (h ++ e ∷ [])
retained-append cap c d h e p ch cd de =
    let k : ℕ = max (stale c h) (length h - cap) in
    let s = stale-drop d k h ch in
    let b = stale-le d h in
    let a = stale-append d h e de in
    let l = length-append h (e ∷ []) in
    let c≤d = stale_mono c d h cd in
    last_n-drop-append cap (stale d (drop k h)) k _ h e (omega (arith, s, b, stale-le c h))
      (omega (arith, s, b, a, l, c≤d))

-- Calls of `Record` in turn, each at its time; the result has the stored events, oldest first.
unfoldable pub record_all : Store → List (ℕ × Event) → Option (Store × List Event)
record_all s [] = some (s, [])
record_all s ((now, e) ∷ es) = do
  (t, stored) ← record_event now e s
  (r, later) ← record_all t es
  some (r, stored ∷ later)

-- The events that `Record` stores, from the sequence number before the first.
abbrev pub stamped : ℕ → List (ℕ × Event) → List Event
stamped seq [] = []
stamped seq ((now, e) ∷ es) = stamp now (next_seq seq) e ∷ stamped (next_seq seq) es

All-left {ℓ} : {A : Type 0} (P : A → Type ℓ) (xs ys : List A) → All P (xs ++ ys) → All P xs
All-left P [] ys h = tt
All-left P (x ∷ xs) ys h = (h.0, All-left P xs ys h.1)

All-mid {ℓ} :
    {A : Type 0} (P : A → Type ℓ) (xs : List A) (y : A) (ys : List A) → All P (xs ++ y ∷ ys) → P y
All-mid P [] y ys h = h.0
All-mid P (x ∷ xs) y ys h = All-mid P xs y ys h.1

IsChronological-left : (h rest : List Event) → IsChronological (h ++ rest) → IsChronological h
IsChronological-left [] rest c = tt
IsChronological-left (x ∷ h) rest c = (All-left _ h rest c.0, IsChronological-left h rest c.1)

last_time-le :
    (t : ℕ) (h : List Event) (e : Event) (rest : List Event)
    → t ≤ e.time
    → IsChronological (h ++ e ∷ rest)
    → last_time t h ≤ e.time
last_time-le t [] e rest b c = b
last_time-le t (x ∷ h) e rest b c =
    last_time-le x.time h e rest (All-mid (λ f. x.time ≤ f.time) h e rest c.0) c.1

last_time-append : (t : ℕ) (h : List Event) (e : Event) → last_time t (h ++ e ∷ []) ≡ e.time
last_time-append t [] e = refl
last_time-append t (x ∷ h) e = last_time-append x.time h e

cutoff_mono : (ttl : ℤ) (s t : ℕ) → s ≤ t → cutoff ttl s ≤ cutoff ttl t
cutoff_mono ttl s t h = ground arith

abbrev Mirrors : List Event → Store → Type 0
Mirrors h s = s.buf ≡ retained s.cap (cutoff s.ttl (last_time 0 h)) h

recorded-Mirrors :
    (now : ℕ) (e : Event) (s : Store) (h rest : List Event)
    → 0 < s.cap
    → Mirrors h s
    → IsChronological (h ++ stamp now (next_seq s.seq) e ∷ rest)
    → Mirrors (h ++ stamp now (next_seq s.seq) e ∷ []) (recorded now e s)
recorded-Mirrors now e s h rest p m c =
    let q = stamp now (next_seq s.seq) e in
    let le = last_time-le 0 h q rest (omega arith) c in
    rw (m, last_time-append 0 h q)
      (retained-append s.cap (cutoff s.ttl (last_time 0 h)) (cutoff s.ttl q.time) h q p
        (IsChronological-left h (q ∷ rest) c) (cutoff_mono s.ttl _ _ le) (cutoff-le s.ttl q.time))

record_all-Mirrors :
    (s : Store) (h : List Event) (es : List (ℕ × Event))
    → IsValid s
    → Mirrors h s
    → IsChronological (h ++ stamped s.seq es)
    → (t : Store) × (record_all s es ≡ some (t, stamped s.seq es))
      × (t.buf
          ≡ retained s.cap
              (cutoff s.ttl (last_time 0 (h ++ stamped s.seq es)))
              (h ++ stamped s.seq es))
unfolding record_all
record_all-Mirrors s h [] v m c = (s, refl, rw append-nil m)
record_all-Mirrors s h ((now, e) ∷ es) v m c =
    let q = stamp now (next_seq s.seq) e in
    let rest = stamped (next_seq s.seq) es in
    let joined = append_assoc h (q ∷ []) rest in
    let (t, run, holds) =
      record_all-Mirrors (recorded now e s) (h ++ q ∷ []) es (recorded-IsValid now e s v)
        (recorded-Mirrors now e s h rest v.cap_pos m c) (rw joined c) in
    (t, rw (record_event_lem now e s v, run), rw joined at holds)

-- The events of a history that are not before a cutoff.
abbrev pub fresh : ℕ → List Event → List Event
fresh limit [] = []
fresh limit (e ∷ es) = if ltb e.time limit then fresh limit es else e ∷ fresh limit es

fresh_whole : (c t : ℕ) (h : List Event) → c ≤ t → All (λ f. t ≤ f.time) h → fresh c h ≡ h
fresh_whole c t [] b a = refl
fresh_whole c t (x ∷ h) b a = ground (arith, fresh_whole c t h b a.1)

fresh-drop : (c : ℕ) (h : List Event) → IsChronological h → fresh c h ≡ drop (stale c h) h
fresh-drop c [] ch = refl
fresh-drop c (x ∷ h) ch = ground (arith, fresh-drop c h ch.1, fresh_whole c x.time h)

last_n-fresh :
    (cap c : ℕ) (h : List Event) → IsChronological h → last_n cap (fresh c h) ≡ retained cap c h
last_n-fresh cap c h ch =
    let l : length (drop (stale c h) h) ≡ length h - stale c h = length-drop (stale c h) h in
    let m : stale c h + (length h - stale c h - cap) ≡ max (stale c h) (length h - cap) =
      omega (arith, stale-le c h) in
    rw (fresh-drop c h ch, drop-drop, l, m)

-- After any calls of `Record` on a new store whose stored events are in order of time, none of which
-- panics, the ring holds the last `cap` of all events that are not before the cutoff of the newest.
pub record_all-fresh :
    (capacity ttl : ℤ) (es : List (ℕ × Event))
    → IsChronological (stamped 0 es)
    → (t : Store) × (record_all (new_with_ttl capacity ttl) es ≡ some (t, stamped 0 es))
      × (t.buf
          ≡ last_n
              (new_with_ttl capacity ttl).cap
              (fresh (cutoff ttl (last_time 0 (stamped 0 es))) (stamped 0 es)))
unfolding new_with_ttl
record_all-fresh capacity ttl es c = rw last_n-fresh (
    record_all-Mirrors (new_with_ttl capacity ttl) [] es (new_with_ttl-IsValid capacity ttl)
      (sym (drop-nil _)) c)
