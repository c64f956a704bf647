-- ===== src/Base/Integers.antt =====
-- Integers over the native numbers, for `i16` values.
use Prim.Native.Nat.{ℕ, zero, suc, ◌-◌}
use agnost_os.Base.Tests.{ltb, if◌then◌else◌}

-- `negsuc n` is minus (n + 1).
pub data ℤ : Type 0 where
  pos : ℕ → ℤ
  negsuc : ℕ → ℤ

-- The difference of two numbers.
abbrev pub difference : ℕ → ℕ → ℤ
difference a b = if ltb a b then ℤ.negsuc (b - a - 1) else ℤ.pos (a - b)

abbrev pub negate : ℤ → ℤ
negate (ℤ.pos zero) = ℤ.pos 0
negate (ℤ.pos (suc n)) = ℤ.negsuc n
negate (ℤ.negsuc n) = ℤ.pos (suc n)
