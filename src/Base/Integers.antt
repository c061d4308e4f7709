-- ===== src/Base/Integers.antt =====
-- Values of the type `int`, within its range, over the native numbers.
use Prim.Native.Nat.{ℕ}

pub data ℤ : Type 0 where
  pos : ℕ → ℤ
  negsuc : ℕ → ℤ
