-- ===== src/Prelude/Int.antt =====
-- Signed integers, under the library's names (its own stand on another ℕ).
use Prim.Native.Nat.{ℕ}

-- `negsuc n` is -(n + 1).
pub data ℤ : Type 0 where
  pos : ℕ → ℤ
  negsuc : ℕ → ℤ
