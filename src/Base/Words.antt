-- ===== src/Base/Words.antt =====
-- `u64` and `usize` (64 bits): checked and saturating operations.
use Prim.Native.Nat.{ℕ, ◌-◌, ◌^◌}
use mathlib.Core.Option.{Option, none, some}
use agnost_os.Base.Tests.{ltb, if◌then◌else◌}

abbrev pub u64_max : ℕ
u64_max = 2 ^ 64 - 1

-- A result that the word holds, or none: `checked_add` and `checked_mul` on their true results.
abbrev pub checked : ℕ → Option ℕ
checked n = if ltb u64_max n then none else some n

abbrev pub saturating : ℕ → ℕ
saturating n = if ltb u64_max n then u64_max else n
