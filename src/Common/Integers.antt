-- ===== src/Common/Integers.antt =====
-- The integers that the source reads from texts.
use Prim.Native.Nat.{ℕ}

-- `pos n` is n, `negsuc n` is - n - 1.
pub data ℤ : Type 0 where
  pos negsuc : ℕ → ℤ
