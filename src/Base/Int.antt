-- ===== src/Base/Int.antt =====
-- Go's int, as far as the program computes with it: exit statuses.
use Prim.Native.Nat.{ℕ}

-- `negsuc n` is -(n + 1).
pub data ℤ : Type 0 where
  pos : ℕ → ℤ
  negsuc : ℕ → ℤ
