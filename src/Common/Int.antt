-- ===== src/Common/Int.antt =====
-- The C type `int`: an integer, `negsuc n` standing for -(n + 1).
use Prim.Native.Nat.{ℕ}
use mathlib.Core.Bool.{Bool, false}
use frameworks_connectivity.Common.Tests.{◌==◌}

pub data ℤ : Type 0 where
  pos : ℕ → ℤ
  negsuc : ℕ → ℤ

abbrev pub is_eq : ℤ → ℤ → Bool
is_eq (pos m) (pos n) = m == n
is_eq (negsuc m) (negsuc n) = m == n
is_eq _ _ = false
