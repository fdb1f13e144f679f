-- ===== src/Common/Int.antt =====
-- Signed integers, where a setting may be negative.
use Prim.Native.Nat.{ℕ}
use mathlib.Core.Bool.{Bool, true}
use zero_config_ha_cluster.Common.Tests.{leb}

-- `negsuc n` is -(n + 1).
pub data ℤ : Type 0 where
  pos : ℕ → ℤ
  negsuc : ℕ → ℤ

-- `a <= n` and `n < a` for a natural number `n`.
abbrev pub le_ℕ : ℤ → ℕ → Bool
le_ℕ (pos m) n = leb m n
le_ℕ (negsuc m) n = true
