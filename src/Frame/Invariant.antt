-- ===== src/Frame/Invariant.antt =====
-- What is true of the frame allocator between any two calls.
use agnost_os.Base.{ℕ, ◌+◌, ◌≤◌, ◌≡◌, true, List, [], ◌∷◌, arith, length, u64_max}
use agnost_os.Frame.{FreeRange, FrameAllocator, max_free_ranges}
use agnost_os.Frame.Ranges.{stop, covers, sum_frames, IsSorted}

-- Both tables are in order and apart and fit their arrays, the counter is the number of free frames,
-- and every free address is a managed one.
pub record IsAllocator (s : FrameAllocator) : Type 0 where
  pub free_sorted : IsSorted 0 s.ranges
  pub managed_sorted : IsSorted 0 s.managed
  pub count : length s.ranges ≤ max_free_ranges
  pub counted : s.free_frames ≡ sum_frames s.ranges
  pub contained : (x : ℕ) → covers s.ranges x ≡ true → covers s.managed x ≡ true

-- A sorted table has fewer frames than addresses.
pub sum_frames-bound :
    (low : ℕ) (rs : List FreeRange)
    → low ≤ u64_max
    → IsSorted low rs
    → low + sum_frames rs ≤ u64_max
unfolding sum_frames
sum_frames-bound low [] le s = omega arith
sum_frames-bound low (r ∷ rs) le (a, b, c, s) =
    omega (arith, sum_frames-bound (stop r) rs (omega arith) s)
