-- ===== src/Prelude/Int.antt =====
-- Signed integers, for the settings and fields of the program that may be negative.
use Prim.Native.Nat.{ℕ}
use mathlib.Core.Bool.{Bool}
use hermi_nas.Prelude.Tests.{ltb}

-- `negsuc n` is -(n + 1).
pub data ℤ : Type 0 where
  pos : ℕ → ℤ
  negsuc : ℕ → ℤ

-- The value of a positive integer, and 0 for the others.
abbrev pub pos_part : ℤ → ℕ
pos_part (pos n) = n
pos_part (negsuc n) = 0

-- `0 < n`
abbrev pub is_pos : ℤ → Bool
is_pos n = ltb 0 (pos_part n)
