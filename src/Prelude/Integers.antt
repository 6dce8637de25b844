-- ===== src/Prelude/Integers.antt =====
-- Python's `int`.
use Prim.Native.Nat.{ℕ}

pub data ℤ : Type 0 where
  pos negsuc : ℕ → ℤ
