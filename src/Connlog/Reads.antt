-- ===== src/Connlog/Reads.antt =====
-- internal/connlog/store.go: what `Len`, `Snapshot` and `Stats` report, and the identifiers.
use outline_gate.Prelude.{
  ℕ, suc, ◌+◌, ◌-◌, ◌≡◌, ◌≤◌, refl, sym, ap, some, Bool, not, ◌&&◌, ◌||◌, List, [], ◌∷◌, arith, ltb,
  ◌==◌, if◌then◌else◌, length, drop, take_all, last_n, length-drop, drop-nil, ℤ, pos_part,
}
use outline_gate.Go.Text.{text_eq}
use outline_gate.Connlog.Types.{Event, Store, via_direct, via_drop}
use outline_gate.Connlog.Methods.{
  len, last_events, snapshot, stats, tally, tally_all, no_counts, Counts,
}
use outline_gate.Connlog.Ring.{pruned, prune-eq, index-eq, slice_from-eq, nonzero}
use outline_gate.Connlog.Valid.{live}

-- The limit as `Snapshot` reads it, for a buffer of `n` events.
abbrev pub limit_of : ℤ → ℕ → ℕ
limit_of limit n = if pos_part limit == 0 then n else pos_part limit

-- The slice of `Snapshot` is in range, for any limit.
last_events-eq :
    (limit : ℤ) (xs : List Event)
    → last_events limit xs ≡ some (last_n (limit_of limit (length xs)) xs)
last_events-eq limit [] = ap some (sym (drop-nil (0 - limit_of limit 0)))
last_events-eq limit (x ∷ xs) =
    let n : ℕ = suc (length xs) in
    let l : ℕ = pos_part limit in
    let count : ℕ = if l == 0 || ltb n l then n else l in
    let fits : count ≤ n = ground arith in
    let k : n - count ≡ n - (if l == 0 then n else l) = ground arith in
    let exact : length (drop (n - count) (x ∷ xs)) ≤ count =
      omega (arith, fits, length-drop (n - count) (x ∷ xs)) in
    rw
      (
        nonzero (length xs),
        index-eq n count fits,
        slice_from-eq (n - count) (x ∷ xs) (omega arith),
        take_all count (drop (n - count) (x ∷ xs)) exact,
        k,
      )
      refl

-- `Len` counts the live events and `Snapshot` gives the last `limit` of them, all for a limit of 0 or
-- less, oldest first; both leave the store pruned, and neither panics.
pub snapshot_lem :
    (now : ℕ) (limit : ℤ) (s : Store)
    → let n = length (live now s) in
      (len now s ≡ some (pruned now s, n))
      × (snapshot now limit s ≡ some (pruned now s, last_n (limit_of limit n) (live now s)))
unfolding len snapshot
snapshot_lem now limit s = rw prune-eq (refl, rw (last_events-eq limit (live now s)) refl)

abbrev pub counted : ℕ → Event → Bool
counted since e = since == 0 || not (ltb e.time since)

abbrev pub count : (Event → Bool) → List Event → ℕ
count p [] = 0
count p (e ∷ es) = if p e then suc (count p es) else count p es

-- What one pass of `Stats` over events adds to the counts: `p` tells which events it looks at. An event
-- is counted once as `ok` or as `fail`; as `direct` if it was sent direct, and as `vpn` if it was neither
-- sent direct nor dropped.
pub record Tallies (p : Event → Bool) (es : List Event) (c d : Counts) : Type 0 where
  pub total : d.total ≡ c.total + count p es
  pub direct : d.direct ≡ c.direct + count (λ e. p e && text_eq e.via via_direct) es
  pub vpn :
      d.vpn
      ≡ c.vpn + count (λ e. p e && not (text_eq e.via via_direct || text_eq e.via via_drop)) es
  pub ok : d.ok ≡ c.ok + count (λ e. p e && e.ok) es
  pub fail : d.fail ≡ c.fail + count (λ e. p e && not e.ok) es

tally_all-Tallies :
    (since : ℕ) (es : List Event) (c : Counts) → Tallies (counted since) es c (tally_all since c es)
unfolding tally_all
tally_all-Tallies since [] c = omega arith
tally_all-Tallies since (e ∷ es) c = ground (arith, tally_all-Tallies since es (tally since c e))

count_split :
    (p q : Event → Bool) (es : List Event)
    → count p es ≡ count (λ e. p e && q e) es + count (λ e. p e && not (q e)) es
count_split p q [] = omega arith
count_split p q (e ∷ es) = ground (arith, count_split p q es)

-- `Stats` prunes the store and tallies its live events that are not before `since`, all of them for the
-- zero time; the total is then the sum of the successes and the failures.
pub stats_lem :
    (now since : ℕ) (s : Store)
    → let c = tally_all since no_counts (live now s) in
      (stats now since s ≡ some (pruned now s, c))
      × Tallies (counted since) (live now s) no_counts c
      × (c.total ≡ c.ok + c.fail)
unfolding stats
stats_lem now since s =
    let t = tally_all-Tallies since (live now s) no_counts in
    rw prune-eq (
      refl,
      t,
      omega (arith, t.total, t.ok, t.fail, count_split (counted since) (λ e. e.ok) (live now s)),
    )
