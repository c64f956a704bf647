-- ===== src/Heap.antt =====
-- src/allocator/mod.rs: the choice of the kernel's heap, on the memory map and the frame allocator.
pub mod FreeList
pub mod Setup
pub mod Usable
pub mod Image
pub mod Initialize
pub mod Tests
use agnost_os.Base.{
  ℕ, zero, suc, ◌+◌, ◌-◌, ◌*◌, ◌%◌, ◌≤◌, ◌<◌, Bool, true, false, not, Option, none, some, List, [],
  ◌∷◌, ltb, leb, ◌==◌, if◌then◌else◌, Result, ok, err,
}
use agnost_os.Memory.{Descriptor, MemoryMap, MemoryKind, page_size, initialize, reserve}
use agnost_os.Frame.{FrameOwner}
use agnost_os.Frame.Global.{GlobalAllocator, allocate_contiguous_owned, global_largest}
use agnost_os.Frame.Global

pub record HeapRegion : Type 0 where
  pub start : ℕ
  pub size : ℕ

pub data HeapError : Type 0 where
  already_initialized no_conventional_memory too_small misaligned : HeapError
  memory_map_unavailable frame_allocator_unavailable memory_reservation_failed : HeapError

-- The first part of `initialize_heap`: the map is copied, and the loaded image and 64 pages around
-- the stack are reserved. `stack` is the address of a variable on the stack.
unfoldable pub reserve_image :
    MemoryMap
    → List Descriptor
    → Option (ℕ × ℕ)
    → ℕ × ℕ
    → ℕ
    → Result HeapError (Unit {0}) × MemoryMap
reserve_image m entries framebuffer (image_start, image_len) stack =
    let (copied, m1) = initialize m entries framebuffer in
    elim copied [
      | err _ ↦ (err memory_map_unavailable, m1)
      | ok _ ↦
          let (image, m2) = reserve m1 image_start image_len MemoryKind.kernel in
          elim image [
            | err _ ↦ (err memory_reservation_failed, m2)
            | ok _ ↦
                let stack_page = stack - stack % page_size in
                let (around, m3) =
                  reserve m2 (stack_page - 32 * page_size) (64 * page_size) MemoryKind.kernel in
                elim around [ err _ ↦ (err memory_reservation_failed, m3) | ok _ ↦ (ok tt, m3) ]
          ]
    ]

-- The second part: the largest run of free frames becomes the heap.
unfoldable pub take_heap :
    MemoryMap → GlobalAllocator → Result HeapError HeapRegion × MemoryMap × GlobalAllocator
take_heap m f =
    let (started, f1) = Global.initialize f m in
    elim started [
      | err _ ↦ (err frame_allocator_unavailable, m, f1)
      | ok _ ↦ elim (global_largest f1) [
        | err _ ↦ (err frame_allocator_unavailable, m, f1)
        | ok heap_frames ↦
            if heap_frames == 0
            then (err no_conventional_memory, m, f1)
            else (let (taken, f2) = allocate_contiguous_owned f1 heap_frames FrameOwner.heap in
                elim taken [
                  | err _ ↦ (err frame_allocator_unavailable, m, f2)
                  | ok heap ↦
                      let (reserved, m1) =
                        reserve m heap.range.start heap.range.length MemoryKind.kernel in
                      elim reserved [
                        | err _ ↦ (err memory_reservation_failed, m1, f2)
                        | ok _ ↦ (
                          ok (record { start = heap.range.start; size = heap.range.length }),
                          m1,
                          f2,
                        )
                      ]
                ])
      ]
    ]

-- What `initialize_heap` reads and writes: `HEAP_START`, `HEAP_SIZE`, and the two global tables.
pub record KernelMemory : Type 0 where
  pub heap_start : ℕ
  pub heap_size : ℕ
  pub memory : MemoryMap
  pub frames : GlobalAllocator

-- `entries` is the map that the firmware leaves when boot services end.
unfoldable pub initialize_heap :
    KernelMemory
    → List Descriptor
    → Option (ℕ × ℕ)
    → ℕ × ℕ
    → ℕ
    → Result HeapError HeapRegion × KernelMemory
initialize_heap s entries framebuffer kernel_image stack =
    if not (s.heap_size == 0)
    then (err already_initialized, s)
    else (let (prepared, m) = reserve_image s.memory entries framebuffer kernel_image stack in
        elim prepared [
          | err e ↦ (err e, record s { memory = m })
          | ok _ ↦
              let (taken, m', f') = take_heap m s.frames in
              elim taken [
                | err e ↦ (err e, record s { memory = m'; frames = f' })
                | ok region ↦ (
                  ok region,
                  record {
                    heap_start = region.start;
                    heap_size = region.size;
                    memory = m';
                    frames = f';
                  },
                )
              ]
        ])
