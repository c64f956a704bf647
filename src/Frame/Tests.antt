-- ===== src/Frame/Tests.antt =====
-- Runs of the frame allocator, after the tests of src/frame.rs, and the theorems at them.
use agnost_os.Base.{
  ◌-◌, ℕ, ◌+◌, ◌*◌, ◌≤◌, ◌<◌, ◌≡◌, ◌⊎◌, refl, true, false, ◌||◌, List, [], ◌∷◌, arith, ok, err,
  length,
}
use mathlib.Core.Path.{subst}
use agnost_os.Memory.{MemoryRange, MemoryKind, MemoryType}
use agnost_os.Memory.Pieces.{between}
use agnost_os.Frame.{
  FreeRange, FrameAllocator, page_size, max_free_ranges, manages, new, add_all, add_managed,
  allocate, take_frames, remove_range, allocate_contiguous, largest_from, largest_free_frames,
  release, free_at, find_index, insert_range, out_of_memory, free_range_storage_full,
  invalid_address,
}
use agnost_os.Frame.Ranges.{covers, sum_frames}
use agnost_os.Frame.Invariant.{IsAllocator}
use agnost_os.Frame.Allocate.{IsAllocated, allocate_lem}
use agnost_os.Frame.Contiguous.{allocate_contiguous_lem}
use agnost_os.Frame.Release.{release_lem}
use agnost_os.Frame.Refuse.{release-accepts}
use agnost_os.Frame.Boot.{IsOrdered, new_lem}

abbrev usable_range : ℕ → ℕ → MemoryRange
usable_range start frames = record {
  start = start;
  length = frames * page_size;
  uefi_type = MemoryType.conventional;
  kind = MemoryKind.usable;
}

-- Two runs of frames with a gap between them.
abbrev map_of_two : List MemoryRange
map_of_two = usable_range 4096 2 ∷ usable_range 65536 4 ∷ []

abbrev allocator : List FreeRange → ℕ → FrameAllocator
allocator ranges free = record {
  ranges = ranges;
  managed = record { start = 4096; frames = 2 } ∷ record { start = 65536; frames = 4 } ∷ [];
  total_frames = 6;
  free_frames = free;
}

abbrev run : ℕ → ℕ → FreeRange
run start frames = record { start = start; frames = frames }

abbrev full_allocator : FrameAllocator
full_allocator = allocator (run 4096 2 ∷ run 65536 4 ∷ []) 6

abbrev after_one : FrameAllocator
after_one = allocator (run 8192 1 ∷ run 65536 4 ∷ []) 5

run-new : new map_of_two ≡ full_allocator
unfolding new add_all add_managed
run-new = refl

run-allocate : allocate full_allocator ≡ (ok (record { address = 4096 }), after_one)
unfolding allocate take_frames remove_range
run-allocate = refl

run-release : release after_one (record { address = 4096 }) ≡ (ok tt, full_allocator)
unfolding release free_at find_index manages insert_range remove_range
run-release = refl

run-double_free :
    release full_allocator (record { address = 4096 }) ≡ (err invalid_address, full_allocator)
unfolding release free_at find_index manages insert_range remove_range
run-double_free = refl

run-contiguous :
    allocate_contiguous full_allocator 3
    ≡ (ok (record { start = 65536; length = 12288 }), allocator (run 4096 2 ∷ run 77824 1 ∷ []) 3)
unfolding allocate_contiguous largest_from take_frames remove_range
run-contiguous = refl

map-IsOrdered : IsOrdered 0 map_of_two
map-IsOrdered = (omega arith, omega arith, (omega arith, omega arith, tt))

full-IsAllocator : IsAllocator full_allocator
full-IsAllocator = subst IsAllocator run-new ((new_lem map_of_two map-IsOrdered).0)

allocate_lem_example :
    ((full_allocator.free_frames ≡ 0)
      × (allocate full_allocator ≡ (err out_of_memory, full_allocator)))
    ⊎ ((0 < full_allocator.free_frames)
        × ((address : ℕ) × (s' : FrameAllocator) × (allocate full_allocator
              ≡ (ok (record { address = address }), s'))
            × IsAllocated full_allocator s' address page_size))
allocate_lem_example = allocate_lem full_allocator full-IsAllocator

abbrev three : ℕ
three = 3

allocate_contiguous_lem_example :
    (((three ≡ 0) ⊎ (largest_free_frames full_allocator < three))
      × (allocate_contiguous full_allocator three ≡ (err out_of_memory, full_allocator)))
    ⊎ ((0 < three)
        × (3 ≤ largest_free_frames full_allocator)
        × ((start : ℕ) × (s' : FrameAllocator) × (allocate_contiguous full_allocator three
              ≡ (ok (record { start = start; length = three * page_size }), s'))
            × IsAllocated full_allocator s' start (three * page_size)))
allocate_contiguous_lem_example = allocate_contiguous_lem full_allocator three full-IsAllocator

after_one-IsAllocator : IsAllocator after_one
unfolding sum_frames covers
after_one-IsAllocator = record {
  free_sorted =
      (omega arith, omega arith, omega arith, (omega arith, omega arith, omega arith, tt));
  managed_sorted = full-IsAllocator.managed_sorted;
  count = omega arith;
  counted = refl;
  contained = λ x c. ground arith;
}

release_lem_example :
    IsAllocator full_allocator
    × ((x : ℕ)
        → covers full_allocator.ranges x
          ≡ (covers after_one.ranges x || between 4096 (4096 + page_size) x))
    × ((x : ℕ) → between 4096 (4096 + page_size) x ≡ true → covers after_one.ranges x ≡ false)
release_lem_example = release_lem after_one 4096 after_one-IsAllocator run-release

first-manages : manages after_one.managed 4096 ≡ true
unfolding manages
first-manages = refl

first-taken : (x : ℕ) → between 4096 (4096 + page_size) x ≡ true → covers after_one.ranges x ≡ false
unfolding covers
first-taken x i = ground arith

release-accepts_example :
    ((s' : FrameAllocator) × (release after_one (record { address = 4096 }) ≡ (ok tt, s')))
    ⊎ ((release after_one (record { address = 4096 }) ≡ (err free_range_storage_full, after_one))
        × (length after_one.ranges ≡ max_free_ranges)
        × (covers after_one.ranges (4096 - 1) ≡ false)
        × (covers after_one.ranges (4096 + page_size) ≡ false))
release-accepts_example =
    release-accepts after_one 4096 after_one-IsAllocator refl first-manages first-taken
