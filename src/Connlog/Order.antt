-- ===== src/Connlog/Order.antt =====
-- internal/connlog/store.go: the identifiers of the stored events, and what subscribers receive.
use mathlib.Core.Path.{subst, ap₂}
use mathlib.Core.Option.{some-injective}
use outline_gate.Prelude.{
  ℤ, ℕ, zero, suc, ◌+◌, ◌^◌, ◌≤◌, ◌<◌, ◌≡◌, refl, sym, ap, ◌∙◌, List, [], ◌∷◌, ◌++◌, map, Option,
  some, append-nil, arith, ltb, if◌then◌else◌, length, drop, take, take_all, take-length-append,
  Bool-cases, tests, inl, inr, length-append, All, All-append, All-drop,
}
use outline_gate.Connlog.Types.{Event, Chan, Store}
use outline_gate.Connlog.Methods.{chan_size, subscribe, unsubscribe, stamp, next_seq}
use outline_gate.Connlog.Ring.{pruned}
use outline_gate.Connlog.Reads.{snapshot_lem, stats_lem}
use outline_gate.Connlog.Valid.{IsValid, recorded, record_event_lem, deliver, IsSound, live}
use outline_gate.Connlog.Session.{
  Call, records, reads_len, reads_snapshot, reads_stats, subscribes, unsubscribes, receives,
  receive_at, step, run, step-IsValid, drop_sub_at_total, recorded-IsValid,
}
use outline_gate.Connlog.History.{record_all, stamped}

-- Identifiers rise from the oldest event to the newest.
abbrev pub Rises : List Event → Type 0
Rises [] = Unit {0}
Rises (e ∷ es) = All (λ f. e.id < f.id) es × Rises es

pub record IsNumbered (s : Store) : Type 0 where
  pub rises : Rises s.buf
  pub below : All (λ e. e.id ≤ s.seq) s.buf

Rises-drop : (n : ℕ) (xs : List Event) → Rises xs → Rises (drop n xs)
Rises-drop zero xs h = h
Rises-drop (suc n) [] h = h
Rises-drop (suc n) (x ∷ xs) h = Rises-drop n xs h.1

Rises-append :
    (n : ℕ) (xs : List Event) (e : Event)
    → Rises xs
    → All (λ f. f.id ≤ n) xs
    → n < e.id
    → Rises (xs ++ e ∷ [])
Rises-append n [] e r b h = (tt, tt)
Rises-append n (x ∷ xs) e r b h =
    (All-append (λ f. x.id < f.id) xs (e ∷ []) r.0 (omega arith, tt), Rises-append n xs e r.1 b.1 h)

below_mono : (m n : ℕ) (xs : List Event) → m ≤ n → All (λ e. e.id ≤ m) xs → All (λ e. e.id ≤ n) xs
below_mono m n [] h a = tt
below_mono m n (x ∷ xs) h a = (omega arith, below_mono m n xs h a.1)

pruned-IsNumbered : (now : ℕ) (s : Store) → IsNumbered s → IsNumbered (pruned now s)
pruned-IsNumbered now s v = record {
  rises = Rises-drop _ s.buf v.rises;
  below = All-drop (λ e. e.id ≤ s.seq) _ s.buf v.below;
}

recorded-IsNumbered :
    (now : ℕ) (e : Event) (s : Store)
    → s.seq + 1 < 2 ^ 64
    → IsNumbered s
    → IsNumbered (recorded now e s)
recorded-IsNumbered now e s b v =
    let q = stamp now (next_seq s.seq) e in
    let l = live q.time s in
    let old : All (λ e. e.id ≤ s.seq) l = All-drop (λ e. e.id ≤ s.seq) _ s.buf v.below in
    let n : next_seq s.seq ≡ s.seq + 1 = omega arith in
    record {
      rises =
          Rises-drop _ (l ++ q ∷ [])
            (Rises-append s.seq l q (Rises-drop _ s.buf v.rises) old (omega arith));
      below =
          All-drop (λ e. e.id ≤ next_seq s.seq) _ (l ++ q ∷ [])
            (All-append (λ e. e.id ≤ next_seq s.seq) l (q ∷ [])
              (below_mono s.seq (next_seq s.seq) l (omega arith) old) (omega arith, tt));
    }

abbrev Numbered : ℕ → Store → Type 0
Numbered seq t = IsNumbered t × (t.seq ≤ seq + 1)

carry :
    (seq : ℕ) (s t : Store) (o : Option Store)
    → o ≡ some s
    → o ≡ some t
    → Numbered seq s
    → Numbered seq t
carry seq s t o e f h = subst (Numbered seq) (some-injective s t (sym e ∙ f)) h

pruned-Numbered : (now : ℕ) (s : Store) → IsNumbered s → Numbered s.seq (pruned now s)
pruned-Numbered now s n = (pruned-IsNumbered now s n, omega arith)

resubscribed : (s : Store) (cs : List Chan) → IsNumbered s → Numbered s.seq (record s { subs = cs })
resubscribed s cs n = (record { rises = n.rises; below = n.below }, omega arith)

-- The numbering survives a step, and the counter moves by one at most.
step-Numbered :
    (s t : Store) (c : Call)
    → IsValid s
    → s.seq + 1 < 2 ^ 64
    → IsNumbered s
    → step s c ≡ some t
    → Numbered s.seq t
unfolding step unsubscribe subscribe
step-Numbered s t (records now e) v b n h =
    carry s.seq (recorded now e s) t _ (rw (record_event_lem now e s v)) h
      (recorded-IsNumbered now e s b n, omega arith)
step-Numbered s t (reads_len now) v b n h =
    carry s.seq (pruned now s) t _ (rw (snapshot_lem now (ℤ.pos 0) s).0) h (pruned-Numbered now s n)
step-Numbered s t (reads_snapshot now limit) v b n h =
    carry s.seq (pruned now s) t _ (rw (snapshot_lem now limit s).1) h (pruned-Numbered now s n)
step-Numbered s t (reads_stats now since) v b n h =
    carry s.seq (pruned now s) t _ (rw (stats_lem now since s).0) h (pruned-Numbered now s n)
step-Numbered s t subscribes v b n h =
    carry s.seq (subscribe s).0 t _ refl h (resubscribed s (subscribe s).0.subs n)
step-Numbered s t (unsubscribes i) v b n h =
    let (ds, e, k) = drop_sub_at_total i s.subs v.sound in
    carry s.seq (record s { subs = ds }) t (unsubscribe i s) (unfold unsubscribe in rw e) h
      (resubscribed s ds n)
step-Numbered s t (receives i) v b n h =
    carry s.seq (record s { subs = receive_at i s.subs }) t _ refl h
      (resubscribed s (receive_at i s.subs) n)

-- From a valid store whose identifiers rise, any calls, fewer than the counter has numbers left, run to a
-- store in which they still rise from the oldest event to the newest and none is above the counter.
pub run-IsNumbered :
    (s : Store) (cs : List Call)
    → IsValid s
    → IsNumbered s
    → s.seq + length cs < 2 ^ 64
    → (t : Store) × (run s cs ≡ some t) × IsNumbered t
unfolding run
run-IsNumbered s [] v n b = (s, refl, n)
run-IsNumbered s (c ∷ cs) v n b =
    let (t, e, w) = step-IsValid s c v in
    let (m, le) = step-Numbered s t c v (omega arith) n e in
    let (r, f, k) = run-IsNumbered t cs w m (omega arith) in (r, rw e f, k)

-- What the events recorded in turn do to one channel: a subscriber keeps as many as fit.
abbrev pub received : List Event → Chan → Chan
received es c = if c.subscribed then record c { queue = take chan_size (c.queue ++ es) } else c

take-append_full :
    (n : ℕ) (xs ys zs : List Event) → take n (take n (xs ++ ys) ++ zs) ≡ take n (xs ++ (ys ++ zs))
take-append_full zero xs ys zs = refl
take-append_full (suc n) (x ∷ xs) ys zs = ap (◌∷◌ x) (take-append_full n xs ys zs)
take-append_full (suc n) [] [] zs = refl
take-append_full (suc n) [] (y ∷ ys) zs = ap (◌∷◌ y) (take-append_full n [] ys zs)

take-room :
    (n : ℕ) (xs : List Event) (e : Event)
    → length xs ≤ n
    → take n (xs ++ e ∷ []) ≡ (if ltb (length xs) n then xs ++ e ∷ [] else xs)
take-room n xs e h = elim (Bool-cases (ltb (length xs) n)) [
  | inl room ↦ rw room (take_all n _ (omega (tests, length-append xs (e ∷ []))))
  | inr full ↦
      rw full (let same : n ≡ length xs = ground arith in rw same (take-length-append xs (e ∷ [])))
]

deliver-received :
    (e : Event) (es : List Event) (c : Chan)
    → IsSound c
    → received es (deliver e c) ≡ received (e ∷ es) c
deliver-received e es c h =
    ground (arith, take-room chan_size c.queue e, take-append_full chan_size c.queue (e ∷ []) es)

map-deliver-received :
    (e : Event) (es : List Event) (cs : List Chan)
    → All IsSound cs
    → map (received es) (map (deliver e) cs) ≡ map (received (e ∷ es)) cs
map-deliver-received e es [] h = refl
map-deliver-received e es (c ∷ cs) h =
    ap₂ ◌∷◌ (deliver-received e es c h.0) (map-deliver-received e es cs h.1)

received_none : (cs : List Chan) → All IsSound cs → cs ≡ map (received []) cs
received_none [] h = refl
received_none (c ∷ cs) h =
    ap₂ ◌∷◌ (ground (arith, append-nil c.queue, take_all chan_size c.queue)) (received_none cs h.1)

-- From a valid store, calls of `Record` in turn do not panic, and leave in the buffer of each subscriber
-- what it held followed by the stored events in their order, cut at the size of the buffer; a channel
-- that is not subscribed is left alone.
pub record_all-received :
    (s : Store) (es : List (ℕ × Event))
    → IsValid s
    → (t : Store) × (record_all s es ≡ some (t, stamped s.seq es))
      × (t.subs ≡ map (received (stamped s.seq es)) s.subs)
unfolding record_all
record_all-received s [] v = (s, refl, received_none s.subs v.sound)
record_all-received s ((now, e) ∷ es) v =
    let q = stamp now (next_seq s.seq) e in
    let (t, run, k) = record_all-received (recorded now e s) es (recorded-IsValid now e s v) in
    (t, rw (record_event_lem now e s v, run), k ∙ map-deliver-received q _ s.subs v.sound)
