-- ===== src/Outline/Maintain/Pace.antt =====
-- internal/outline/client.go: how long the loop of `MaintainReady` waits.
use outline_gate.Prelude.{
  ℕ, ◌-◌, ◌≤◌, ◌≡◌, refl, Bool, true, false, not, ◌&&◌, List, [], ◌∷◌, ◌++◌, some, none, arith, ltb,
  if◌then◌else◌, if-both, All,
}
use outline_gate.Go.Text.{is_empty}
use outline_gate.Outline.{Network, Client, Outcome, not_up, connect, probe, refresh_if_changed}
use outline_gate.Outline.Maintain.{
  Intervals, Loop, Turn, five_seconds, shortest_wake, since, cut_wake, next_wake, backed_off,
  is_down, settled, probe_turn, after_change, refresh_turn, timed, up_turn, restarted,
  after_first_probe, after_connect, turn, first_loop,
}

cut_wake-bound : (b : Bool) (left wake : ℕ) → cut_wake b left wake ≤ wake
cut_wake-bound b left wake = ground arith

raised :
    (wake : ℕ)
    → wake ≤ five_seconds
    → (shortest_wake ≤ (if ltb wake shortest_wake then shortest_wake else wake))
      × ((if ltb wake shortest_wake then shortest_wake else wake) ≤ five_seconds)
raised wake h = ground arith

next_wake-bounds :
    (i : Intervals) (c : Client) (now : ℕ) (l : Loop)
    → (shortest_wake ≤ next_wake i c now l) × (next_wake i c now l ≤ five_seconds)
unfolding next_wake
next_wake-bounds i c now l =
    let probe_used = not (is_empty c.probe_addr) && ltb 0 i.probe_interval in
    let probe_left = i.probe_interval - since now l.last_probe in
    let left = i.refresh_every - since now l.last_refresh in
    let first = cut_wake-bound probe_used probe_left five_seconds in
    let second =
      cut_wake-bound (ltb 0 i.refresh_every) left (cut_wake probe_used probe_left five_seconds) in
    let wake =
      cut_wake (ltb 0 i.refresh_every) left (cut_wake probe_used probe_left five_seconds) in
    raised wake (omega (arith, first, second))

-- A turn whose delay for the next failure is at most `d`, and that waits, if at all, at most `d` behind a
-- failure, and from ten milliseconds to five seconds otherwise.
pub data IsPaced (d : ℕ) : Turn → Type 0 where
  failed : {t : Turn} (w : ℕ) → t.wait ≡ some w → w ≤ d → t.loop.delay ≤ d → IsPaced d t
  at_once : {t : Turn} → t.wait ≡ none → t.loop.delay ≤ d → IsPaced d t
  resting :
      {t : Turn} (w : ℕ)
      → t.wait ≡ some w
      → shortest_wake ≤ w
      → w ≤ five_seconds
      → t.loop.delay ≤ d
      → IsPaced d t

module _ (n : Network) (i : Intervals) (d : ℕ) (now : ℕ) (based : i.base ≤ d)
    (capped : i.longest ≤ d) where
  settled-IsPaced :
      (c : Client) (l : Loop) (changes : List Bool)
      → l.delay ≤ d
      → IsPaced d (settled i now c l changes)
  settled-IsPaced c l changes h =
      let (low, high) = next_wake-bounds i c now l in resting (next_wake i c now l) refl low high h

  backed_off-IsPaced : (c : Client) (l : Loop) → l.delay ≤ d → IsPaced d (backed_off i c l)
  backed_off-IsPaced c l h = failed l.delay refl h (ground arith)

  probe_turn-IsPaced :
      (c : Client) (l : Loop) (changes : List Bool)
      → l.delay ≤ d
      → IsPaced d (probe_turn n i now c l changes)
  probe_turn-IsPaced c l changes h =
      let l' : Loop = record l { last_probe = some now } in
      if-both (IsPaced d) _ _ _
        (if-both (IsPaced d) (is_down (probe n c)) _ _ (at_once refl h)
          (settled-IsPaced (probe n c).0 l' changes h))
        (settled-IsPaced c l changes h)

  after_change-IsPaced :
      (c : Client) (l : Loop) (changes : List Bool)
      → l.delay ≤ d
      → IsPaced d (after_change n i now c l changes)
  after_change-IsPaced c l changes h =
      let tried : Outcome = if is_empty c.probe_addr then (c, none) else probe n c in
      if-both (IsPaced d) (is_down tried) _ _ (at_once refl h)
        (probe_turn-IsPaced tried.0 l (if tried.0.ready then changes ++ true ∷ [] else changes) h)

  refresh_turn-IsPaced :
      (c : Client) (l : Loop) (changes : List Bool)
      → l.delay ≤ d
      → IsPaced d (refresh_turn n i now c l changes)
  refresh_turn-IsPaced c l changes h =
      let l' : Loop = record l { last_refresh = some now } in
      let fresh = refresh_if_changed n c in
      if-both (IsPaced d) _ _ _
        (if-both (IsPaced d) fresh.1 _ _ (after_change-IsPaced fresh.0 l' changes h)
          (probe_turn-IsPaced fresh.0 l' changes h))
        (probe_turn-IsPaced c l changes h)

  up_turn-IsPaced :
      (c : Client) (l : Loop) (changes : List Bool)
      → l.delay ≤ d
      → IsPaced d (up_turn n i now c l changes)
  up_turn-IsPaced c l changes h = refresh_turn-IsPaced c (timed now l) changes h

  after_first_probe-IsPaced :
      (l : Loop) (o : Outcome) → l.delay ≤ d → IsPaced d (after_first_probe n i now l o)
  after_first_probe-IsPaced l (c, some e) h = backed_off-IsPaced (not_up c) l h
  after_first_probe-IsPaced l (c, none) h = up_turn-IsPaced c (restarted i now l) (true ∷ []) based

  after_connect-IsPaced :
      (l : Loop) (o : Outcome) → l.delay ≤ d → IsPaced d (after_connect n i now l o)
  after_connect-IsPaced l (c, some e) h = backed_off-IsPaced c l h
  after_connect-IsPaced l (c, none) h = after_first_probe-IsPaced l (probe n c) h

  turn-IsPaced : (c : Client) (l : Loop) → l.delay ≤ d → IsPaced d (turn n i now c l)
  unfolding turn
  turn-IsPaced c l h =
      let l' : Loop = record l { probe_now = false; last_probe = some now } in
      if-both (IsPaced d) (not c.ready) _ _ (after_connect-IsPaced l (connect n c) h) (
        if-both (IsPaced d) l.probe_now _ _
          (if-both (IsPaced d) (is_down (probe n c)) _ _ (at_once refl h)
            (up_turn-IsPaced (probe n c).0 l' [] h))
          (up_turn-IsPaced c l [] h))

paced_delay : (d : ℕ) (t : Turn) → IsPaced d t → t.loop.delay ≤ d
paced_delay d t (failed w e a b) = b
paced_delay d t (at_once e b) = b
paced_delay d t (resting w e a b k) = k

-- The turns of the loop, each at a time and with the client as the other calls have left it.
unfoldable pub turns : Intervals → Loop → List (Network × (ℕ × Client)) → List Turn
turns i l [] = []
turns i l ((n, (now, c)) ∷ xs) = let t = turn n i now c l in t ∷ turns i t.loop xs

turns_from :
    (i : Intervals) (d : ℕ) (l : Loop) (xs : List (Network × (ℕ × Client)))
    → i.base ≤ d
    → i.longest ≤ d
    → l.delay ≤ d
    → All (IsPaced d) (turns i l xs)
unfolding turns
turns_from i d l [] based capped h = tt
turns_from i d l ((n, (now, c)) ∷ xs) based capped h =
    let p = turn-IsPaced n i d now based capped c l h in
    (p, turns_from i d (turn n i now c l).loop xs based capped (paced_delay d (turn n i now c l) p))

-- Whatever happens to the client, and whatever the networks answer: each turn of the loop goes on at once,
-- or waits from ten milliseconds to five seconds, or at most for `d`, any bound on the first and the
-- longest delay; and the delay that it leaves for the next failure is at most `d`.
pub turns-IsPaced :
    (i : Intervals) (d : ℕ) (c : Client) (xs : List (Network × (ℕ × Client)))
    → i.base ≤ d
    → i.longest ≤ d
    → All (IsPaced d) (turns i (first_loop i c) xs)
turns-IsPaced i d c xs based capped = turns_from i d (first_loop i c) xs based capped based
