-- ===== src/Base/Int.antt =====
-- Signed integers, as far as a signed counter needs them. `negsuc n` is -(n + 1).
use Prim.Native.Nat.{ℕ, zero, suc}
use mathlib.Core.Bool.{Bool, true, false}

pub data ℤ : Type 0 where
  pos : ℕ → ℤ
  negsuc : ℕ → ℤ

-- `x - 1`
abbrev pub pred_ℤ : ℤ → ℤ
pred_ℤ (pos zero) = negsuc zero
pred_ℤ (pos (suc n)) = pos n
pred_ℤ (negsuc n) = negsuc (suc n)

-- `x > 0`
abbrev pub positive_ℤ : ℤ → Bool
positive_ℤ (pos zero) = false
positive_ℤ (pos (suc n)) = true
positive_ℤ (negsuc n) = false
