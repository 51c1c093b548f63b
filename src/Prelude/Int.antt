-- ===== src/Prelude/Int.antt =====
-- Signed integers over the native numbers, under the library's names (its ℤ stands on the unary ℕ).
use Prim.Native.Nat.{ℕ, zero, suc, ◌+◌, ◌-◌}
use mathlib.Core.Bool.{Bool, true, false}
use mastermind_minecraft_ser.Prelude.Tests.{leb, if◌then◌else◌}

-- `negsuc n` is -(n + 1).
pub data ℤ : Type 0 where
  pos : ℕ → ℤ
  negsuc : ℕ → ℤ

abbrev pub pos_part : ℤ → ℕ
pos_part (pos n) = n
pos_part (negsuc n) = 0

-- a + n, for a column that is incremented
unfoldable pub add_ℕ : ℤ → ℕ → ℤ
add_ℕ (pos m) n = pos (m + n)
add_ℕ (negsuc m) n = if leb (suc m) n then pos (n - suc m) else negsuc (m - n)

-- a - n, for a column that is decremented
unfoldable pub sub_ℕ : ℤ → ℕ → ℤ
sub_ℕ (pos m) n = if leb n m then pos (m - n) else negsuc (n - m - 1)
sub_ℕ (negsuc m) n = negsuc (m + n)

-- a > 0
abbrev pub is_positive : ℤ → Bool
is_positive (pos zero) = false
is_positive (pos (suc n)) = true
is_positive (negsuc n) = false
