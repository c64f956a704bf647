-- ===== src/Frame/Global.antt =====
-- src/frame.rs: the kernel's one allocator, none until `initialize`, and the handles with an owner.
use agnost_os.Base.{ℕ, Option, none, some, Result, ok, err}
use agnost_os.Memory.{MemoryMap}
use agnost_os.Frame.{
  FrameAllocator, FrameError, FrameOwner, OwnedFrame, OwnedPhysicalRange, FrameStats, new, allocate,
  allocate_contiguous, largest_free_frames, release, stats, already_initialized,
  memory_map_unavailable,
}

-- `FRAME_ALLOCATOR`.
abbrev pub GlobalAllocator : Type 0
GlobalAllocator = Option FrameAllocator

unfoldable pub initialize :
    GlobalAllocator → MemoryMap → Result FrameError (Unit {0}) × GlobalAllocator
initialize (some s) map = (err already_initialized, some s)
initialize none none = (err memory_map_unavailable, none)
initialize none (some snapshot) = (ok tt, some (new snapshot))

unfoldable pub allocate_owned :
    GlobalAllocator → FrameOwner → Result FrameError OwnedFrame × GlobalAllocator
allocate_owned none owner = (err memory_map_unavailable, none)
allocate_owned (some s) owner =
    let (r, s') = allocate s in
    elim r [
      | err e ↦ (err e, some s')
      | ok frame ↦ (ok (record { frame = frame; owner = owner }), some s')
    ]

unfoldable pub allocate_contiguous_owned :
    GlobalAllocator → ℕ → FrameOwner → Result FrameError OwnedPhysicalRange × GlobalAllocator
allocate_contiguous_owned none frames owner = (err memory_map_unavailable, none)
allocate_contiguous_owned (some s) frames owner =
    let (r, s') = allocate_contiguous s frames in
    elim r [
      | err e ↦ (err e, some s')
      | ok range ↦ (ok (record { range = range; owner = owner }), some s')
    ]

unfoldable pub global_largest : GlobalAllocator → Result FrameError ℕ
global_largest none = err memory_map_unavailable
global_largest (some s) = ok (largest_free_frames s)

-- `OwnedFrame::release`.
unfoldable pub release_owned :
    GlobalAllocator → OwnedFrame → Result FrameError (Unit {0}) × GlobalAllocator
release_owned none owned = (err memory_map_unavailable, none)
release_owned (some s) owned = let (r, s') = release s owned.frame in (r, some s')

unfoldable pub global_stats : GlobalAllocator → Option FrameStats
global_stats none = none
global_stats (some s) = some (stats s)
