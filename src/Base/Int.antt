-- ===== src/Base/Int.antt =====
-- Signed arguments of C functions. `negsuc n` is -(n + 1).
use Prim.Native.Nat.{ℕ}
use mathlib.Core.Bool.{Bool, true, false}

pub data ℤ : Type 0 where
  pos : ℕ → ℤ
  negsuc : ℕ → ℤ

-- the test `a < 0`
abbrev pub negative : ℤ → Bool
negative (pos n) = false
negative (negsuc n) = true
