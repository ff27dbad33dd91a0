-- ===== src/Common/Ints.antt =====
-- Signed integers: an int or an int64 of the program, without a bound.
use Prim.Native.Nat.{ℕ}

pub data ℤ : Type 0 where
  pos : ℕ → ℤ
  negsuc : ℕ → ℤ
