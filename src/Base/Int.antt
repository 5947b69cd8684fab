-- ===== src/Base/Int.antt =====
-- Go's `int` where the code only compares it with zero or passes it on.
use Prim.Native.Nat.{ℕ}

-- `negsuc n` is -(n + 1).
pub data ℤ : Type 0 where
  pos negsuc : ℕ → ℤ
