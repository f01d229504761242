-- ===== src/Base/Int.antt =====
-- C ints that a component only stores and compares with 0; `negsuc n` is -(n + 1).
use Prim.Native.Nat.{ℕ}

pub data ℤ : Type 0 where
  pos : ℕ → ℤ
  negsuc : ℕ → ℤ
