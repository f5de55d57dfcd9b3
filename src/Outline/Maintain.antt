-- ===== src/Outline/Maintain.antt =====
-- internal/outline/client.go: one turn of the loop of `MaintainReady`, at a time in nanoseconds. An interval
-- that is not positive counts as 0. The clock does not go back, and is read once for each turn.
pub mod Pace
use outline_gate.Prelude.{
  ℕ, ◌+◌, ◌-◌, ◌*◌, Bool, true, false, not, ◌&&◌, List, [], ◌∷◌, ◌++◌, Option, some, none, ltb, leb,
  ◌==◌, if◌then◌else◌,
}
use outline_gate.Go.Text.{is_empty}
use outline_gate.Outline.{
  Network, Client, ClientError, Outcome, not_up, connect, probe, refresh_if_changed,
}

pub record Intervals : Type 0 where
  pub base : ℕ
  pub longest : ℕ
  pub probe_interval : ℕ
  pub refresh_every : ℕ

-- The variables of the loop; a time that is not set is `none`.
pub record Loop : Type 0 where
  pub delay : ℕ
  pub last_probe : Option ℕ
  pub last_refresh : Option ℕ
  pub probe_now : Bool

-- What a turn leaves: the wait in front of the next one, if any, and the calls of `onChange`.
pub record Turn : Type 0 where
  pub client : Client
  pub loop : Loop
  pub wait : Option ℕ
  pub changes : List Bool

abbrev pub five_seconds : ℕ
five_seconds = 5000000000

abbrev pub shortest_wake : ℕ
shortest_wake = 10000000

abbrev pub since : ℕ → Option ℕ → ℕ
since now none = 0
since now (some t) = now - t

-- The wait is cut to the rest of an interval that is in use.
abbrev pub cut_wake : Bool → ℕ → ℕ → ℕ
cut_wake in_use left wake = if in_use && ltb left wake then left else wake

-- `nextWake`.
unfoldable pub next_wake : Intervals → Client → ℕ → Loop → ℕ
next_wake i c now l =
    let probe_wake =
      cut_wake (not (is_empty c.probe_addr) && ltb 0 i.probe_interval)
        (i.probe_interval - since now l.last_probe) five_seconds in
    let wake =
      cut_wake (ltb 0 i.refresh_every) (i.refresh_every - since now l.last_refresh) probe_wake in
    if ltb wake shortest_wake then shortest_wake else wake

-- The end of a turn that failed: the wait is the delay, which is doubled up to the longest.
abbrev pub backed_off : Intervals → Client → Loop → Turn
backed_off i c l = record {
  client = c;
  loop = record l { delay = if ltb i.longest (l.delay * 2) then i.longest else l.delay * 2 };
  wait = some l.delay;
  changes = false ∷ [];
}

-- A turn that ends at once, since the tunnel went down.
abbrev pub lost : Client → Loop → List Bool → Turn
lost c l changes = record { client = c; loop = l; wait = none; changes = changes ++ false ∷ [] }

abbrev pub is_down : Outcome → Bool
is_down (c, none) = false
is_down (c, some e) = not c.ready

abbrev pub settled : Intervals → ℕ → Client → Loop → List Bool → Turn
settled i now c l changes = record {
  client = c;
  loop = l;
  wait = some (next_wake i c now l);
  changes = changes;
}

-- The probe, if it is due.
abbrev pub probe_turn : Network → Intervals → ℕ → Client → Loop → List Bool → Turn
probe_turn n i now c l changes =
    let due =
      not (is_empty c.probe_addr)
      && (ltb 0 i.probe_interval && leb i.probe_interval (since now l.last_probe)) in
    let l' : Loop = record l { last_probe = some now } in
    if due
    then (if is_down (probe n c)
        then lost (probe n c).0 l' changes
        else settled i now (probe n c).0 l' changes)
    else settled i now c l changes

-- What follows a refresh that changed the dialer.
abbrev pub after_change : Network → Intervals → ℕ → Client → Loop → List Bool → Turn
after_change n i now c l changes =
    let tried : Outcome = if is_empty c.probe_addr then (c, none) else probe n c in
    if is_down tried
    then lost tried.0 l changes
    else probe_turn n i now tried.0 l (if tried.0.ready then changes ++ true ∷ [] else changes)

-- The refresh, if it is due.
abbrev pub refresh_turn : Network → Intervals → ℕ → Client → Loop → List Bool → Turn
refresh_turn n i now c l changes =
    let l' : Loop = record l { last_refresh = some now } in
    let fresh = refresh_if_changed n c in
    if ltb 0 i.refresh_every && leb i.refresh_every (since now l.last_refresh)
    then (if fresh.1
        then after_change n i now fresh.0 l' changes
        else probe_turn n i now fresh.0 l' changes)
    else probe_turn n i now c l changes

abbrev pub or_now : ℕ → Option ℕ → Option ℕ
or_now now none = some now
or_now now (some t) = some t

-- A time that is not set is set to now.
abbrev pub timed : ℕ → Loop → Loop
timed now l = record l {
  last_probe = or_now now l.last_probe;
  last_refresh = or_now now l.last_refresh;
}

abbrev pub up_turn : Network → Intervals → ℕ → Client → Loop → List Bool → Turn
up_turn n i now c l changes = refresh_turn n i now c (timed now l) changes

abbrev pub restarted : Intervals → ℕ → Loop → Loop
restarted i now l = record {
  delay = i.base;
  last_probe = some now;
  last_refresh = some now;
  probe_now = false;
}

abbrev pub after_first_probe : Network → Intervals → ℕ → Loop → Outcome → Turn
after_first_probe n i now l (c, some e) = backed_off i (not_up c) l
after_first_probe n i now l (c, none) = up_turn n i now c (restarted i now l) (true ∷ [])

abbrev pub after_connect : Network → Intervals → ℕ → Loop → Outcome → Turn
after_connect n i now l (c, some e) = backed_off i c l
after_connect n i now l (c, none) = after_first_probe n i now l (probe n c)

-- The body of the loop.
unfoldable pub turn : Network → Intervals → ℕ → Client → Loop → Turn
turn n i now c l =
    let l' : Loop = record l { probe_now = false; last_probe = some now } in
    if not c.ready
    then after_connect n i now l (connect n c)
    else if l.probe_now
    then (if is_down (probe n c)
        then lost (probe n c).0 l' []
        else up_turn n i now (probe n c).0 l' [])
    else up_turn n i now c l []

-- The loop at the start of `MaintainReady`.
abbrev pub first_loop : Intervals → Client → Loop
first_loop i c = record {
  delay = i.base;
  last_probe = none;
  last_refresh = none;
  probe_now = not (is_empty c.probe_addr);
}
