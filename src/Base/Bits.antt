-- ===== src/Base/Bits.antt =====
-- Single bits of a byte: `byte & (1 << k) != 0`, and setting or clearing one.
use Prim.Native.Nat.{ℕ, ◌+◌, ◌-◌, ◌/◌, ◌%◌, ◌^◌}
use mathlib.Core.Bool.{Bool}
use agnost_os.Base.Tests.{◌==◌, if◌then◌else◌}

abbrev pub bit : ℕ → ℕ → Bool
bit n k = (n / 2 ^ k) % 2 == 1

abbrev pub set_bit : ℕ → ℕ → ℕ
set_bit n k = if bit n k then n else n + 2 ^ k

abbrev pub clear_bit : ℕ → ℕ → ℕ
clear_bit n k = if bit n k then n - 2 ^ k else n
