-- ===== src/Connlog/Ring.antt =====
-- internal/connlog/store.go: what `pruneLocked` and `Record` leave in the ring.
use outline_gate.Prelude.{
  ℕ, zero, suc, ◌-◌, ◌≤◌, ◌<◌, ◌≡◌, refl, sym, ap, ◌∙◌, inl, inr, false, List, [], ◌∷◌, ◌++◌, some,
  arith, ltb, leb, tests, ◌==◌, if◌then◌else◌, Bool-cases, length, drop, take, last_n,
  length-append, length-drop, take-length-append, drop-append, drop-all, ℤ, pos_part,
}
use outline_gate.Connlog.Types.{Event, Store}
use outline_gate.Connlog.Methods.{
  stale, index, slice_from, slice_to, copied, cut_front, prune, append_ring,
}

-- A bound that is in range does not panic.
pub index-eq : (n i : ℕ) → i ≤ n → index n i ≡ some (n - i)
index-eq n i h = ground (arith, h)

pub slice_from-eq : (i : ℕ) (xs : List Event) → i ≤ length xs → slice_from i xs ≡ some (drop i xs)
slice_from-eq i xs h = ground (arith, h)

slice_to-eq : (k : ℕ) (xs : List Event) → k ≤ length xs → slice_to k xs ≡ some (take k xs)
slice_to-eq k xs h = ground (arith, h)

-- The copy loop of the ring keeps what stands behind the first `i` places.
take-copied : (i : ℕ) (xs : List Event) → take (length xs - i) (copied (drop i xs) xs) ≡ drop i xs
take-copied i xs =
    ap (λ k. take k (copied (drop i xs) xs)) (sym (length-drop i xs))
    ∙ take-length-append (drop i xs) _

pub stale-le : (t : ℕ) (xs : List Event) → stale t xs ≤ length xs
stale-le t [] = omega arith
stale-le t (x ∷ xs) = ground (arith, stale-le t xs)

stale-zero : (xs : List Event) → stale 0 xs ≡ 0
stale-zero [] = refl
stale-zero (x ∷ xs) = ground arith

-- The cutoff that `pruneLocked` works with; a store without a TTL prunes nothing, as at time 0.
abbrev pub cutoff : ℤ → ℕ → ℕ
cutoff ttl now = if pos_part ttl == 0 then 0 else now - pos_part ttl

-- The store without the events at its front that are too old.
abbrev pub pruned : ℕ → Store → Store
pruned now s = record s { buf = drop (stale (cutoff s.ttl now) s.buf) s.buf }

pub nonzero : (i : ℕ) → (suc i == 0) ≡ false
nonzero i = ground arith

-- The end of `pruneLocked` does not panic, and its tests only save work.
cut_front-eq : (i : ℕ) (xs : List Event) → i ≤ length xs → cut_front i xs ≡ some (drop i xs)
cut_front-eq zero xs h = refl
cut_front-eq (suc i) xs h = elim (Bool-cases (leb (length xs) (suc i))) [
  | inl all ↦ rw (nonzero i, all) (ap some (sym (drop-all (suc i) xs (ground (arith, all)))))
  | inr some_left ↦
      let room : length xs - suc i ≤ length (copied (drop (suc i) xs) xs) = omega (
        arith,
        length-append (drop (suc i) xs) (drop (length (drop (suc i) xs)) xs),
        length-drop (suc i) xs,
      ) in
      rw
        (
          nonzero i,
          some_left,
          slice_from-eq (suc i) xs h,
          index-eq (length xs) (suc i) h,
          slice_to-eq (length xs - suc i) (copied (drop (suc i) xs) xs) room,
          take-copied (suc i) xs,
        )
        refl
]

pub prune-eq : (now : ℕ) (s : Store) → prune now s ≡ some (pruned now s)
unfolding prune
prune-eq now s = ground (
  arith,
  cut_front-eq (stale (now - pos_part s.ttl) s.buf) s.buf (stale-le _ _),
  stale-zero s.buf,
  stale-le (now - pos_part s.ttl) s.buf,
  drop-all 0 s.buf,
)

pub append_ring-eq :
    (cap : ℕ) (e : Event) (buf : List Event)
    → 0 < cap
    → length buf ≤ cap
    → append_ring cap e buf ≡ some (last_n cap (buf ++ e ∷ []))
append_ring-eq cap e buf c h =
    let n : length (buf ++ e ∷ []) ≡ suc (length buf) = omega (arith, length-append buf (e ∷ [])) in
    elim (Bool-cases (ltb (length buf) cap)) [
      | inl room ↦ let k : length (buf ++ e ∷ []) - cap ≡ 0 = omega (tests, n) in rw (room, k)
      | inr full ↦
          let k : length (buf ++ e ∷ []) - cap ≡ 1 = ground (arith, n) in
          rw (full, k) (ground (arith, take-copied 1 buf, drop-append 1 buf (e ∷ [])))
    ]
