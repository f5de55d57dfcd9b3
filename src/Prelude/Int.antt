-- ===== src/Prelude/Int.antt =====
-- Go's `int` and `time.Duration`, where a sign matters: `negsuc n` is -(n + 1).
use Prim.Native.Nat.{ℕ}

pub data ℤ : Type 0 where
  pos : ℕ → ℤ
  negsuc : ℕ → ℤ

-- The value where it is positive, and 0 otherwise: `x <= 0` is `pos_part x ≡ 0`.
abbrev pub pos_part : ℤ → ℕ
pos_part (pos n) = n
pos_part (negsuc n) = 0
