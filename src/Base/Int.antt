-- ===== src/Base/Int.antt =====
-- Python's integers, as far as amounts need them: `negsuc n` is -(n + 1).
use Prim.Native.Nat.{ℕ}

pub data ℤ : Type 0 where
  pos : ℕ → ℤ
  negsuc : ℕ → ℤ
