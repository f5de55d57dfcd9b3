-- ===== src/Amnezia/Client/Waits.antt =====
-- internal/amnezia/client.go: the two loops of `Up` that wait, for the daemon's socket and for the
-- handshake, as one function of the test and of its times.
use outline_gate.Prelude.{ℕ, zero, suc, ◌+◌, ◌*◌, ◌<◌, ◌≢◌, Bool, ltb, leb, if◌then◌else◌, arith}

pub data Waited : Type 0 where
  arrived cancelled timed_out out_of_fuel : Waited

-- What a loop tests at a time, and how long the test takes; the pause between two tests; the deadline, and
-- the time at which the context ends.
pub record Wait : Type 0 where
  pub test : ℕ → Bool
  pub cost : ℕ → ℕ
  pub pause : ℕ
  pub deadline : ℕ
  pub context_end : ℕ

-- The loop, from a time on: the time at its end, and how it ended.
unfoldable pub wait_for : Wait → ℕ → ℕ → ℕ × Waited
wait_for w zero now = (now, out_of_fuel)
wait_for w (suc fuel) now =
    let after = now + w.cost now in
    let rest = wait_for w fuel (after + w.pause) in
    if leb w.context_end now
    then (now, cancelled)
    else if w.test now
    then (after, arrived)
    else if ltb w.deadline after
    then (after, timed_out)
    else rest

-- The loop ends within a fuel of n + 2, where n is the number of pauses that fit in front of the deadline.
pub wait_for-ends :
    (w : Wait) (n now : ℕ)
    → w.deadline < now + n * w.pause
    → (wait_for w (suc n) now).1 ≢ out_of_fuel
unfolding wait_for
wait_for-ends w zero now h = ground arith
wait_for-ends w (suc n) now h =
    ground (arith, wait_for-ends w n (now + w.cost now + w.pause) (omega arith))
