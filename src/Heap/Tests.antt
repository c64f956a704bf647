-- ===== src/Heap/Tests.antt =====
-- The choice of the heap on a small map, and the theorem at it.
use agnost_os.Base.{◌≡◌, map, List, refl, none, some, [], ◌∷◌, arith, ok}
use agnost_os.Memory
use agnost_os.Memory.{
  Descriptor, copy_from, copy_entries, to_range, add_framebuffer, add_external_range, MemoryMap,
  MemoryType, MemoryKind, Snapshot, reserve, reserve_range, reserve_loop, reserve_one, push_range,
}
use agnost_os.Frame.{
  new, largest_free_frames, add_all, add_managed, largest_from, max_frames, take_frames,
  remove_range, allocate_contiguous,
}
use agnost_os.Frame.Global.{GlobalAllocator, allocate_contiguous_owned, global_largest}
use agnost_os.Frame.Global
use agnost_os.Frame.Boot.{IsOrdered}
use agnost_os.Heap.Initialize.{fresh, IsHeapOf, initialize_heap_lem}
use agnost_os.Memory.Copy.{range_of}
use agnost_os.Heap.{HeapRegion, KernelMemory, initialize_heap, reserve_image, take_heap}

abbrev small_map : Snapshot
small_map =
    record {
      start = 4096;
      length = 8192;
      uefi_type = MemoryType.conventional;
      kind = MemoryKind.usable;
    }
    ∷ record {
      start = 12288;
      length = 4096;
      uefi_type = MemoryType.loader_code;
      kind = MemoryKind.kernel;
    }
    ∷ record {
      start = 16384;
      length = 16384;
      uefi_type = MemoryType.conventional;
      kind = MemoryKind.usable;
    }
    ∷ []

-- The heap is the larger of the two usable ranges.
run-take_heap : (take_heap (some small_map) none).0 ≡ ok (record { start = 16384; size = 16384 })
unfolding take_heap Global.initialize global_largest allocate_contiguous_owned allocate_contiguous
    new add_all add_managed largest_free_frames max_frames largest_from take_frames remove_range
    reserve reserve_range reserve_loop reserve_one push_range
run-take_heap = refl

abbrev firmware_map : List Descriptor
firmware_map =
    record { ty = MemoryType.conventional; phys_start = 4096; page_count = 200 }
    ∷ record { ty = MemoryType.loader_code; phys_start = 823296; page_count = 4 }
    ∷ record { ty = MemoryType.conventional; phys_start = 839680; page_count = 100 }
    ∷ []

-- The heap of a small machine: the kernel's image lies behind the first range, the stack in it.
abbrev heap_region : HeapRegion
heap_region = record { start = 839680; size = 409600 }

-- The state of the kernel's memory afterwards.
abbrev heap_memory : KernelMemory
heap_memory =
    (initialize_heap fresh firmware_map (some (2147483648, 8294400)) (823296, 16384) 409700).1

run-initialize_heap :
    initialize_heap fresh firmware_map (some (2147483648, 8294400)) (823296, 16384) 409700
    ≡ (ok heap_region, heap_memory)
unfolding initialize_heap reserve_image take_heap Memory.initialize copy_from copy_entries to_range
    add_framebuffer add_external_range Global.initialize global_largest allocate_contiguous_owned
    allocate_contiguous new add_all add_managed largest_free_frames max_frames largest_from
    take_frames remove_range reserve reserve_range reserve_loop reserve_one push_range
    Memory.from_uefi_type
run-initialize_heap = refl

firmware-IsOrdered : IsOrdered 0 (map range_of firmware_map)
unfolding Memory.from_uefi_type
firmware-IsOrdered = (omega arith, omega arith, (omega arith, omega arith, tt))

initialize_heap_lem_example :
    IsHeapOf
      (map range_of firmware_map)
      (2147483648, 8294400)
      (823296, 16384)
      409700
      heap_region
      heap_memory
initialize_heap_lem_example =
    initialize_heap_lem firmware_map (2147483648, 8294400) (823296, 16384) 409700 firmware-IsOrdered
      run-initialize_heap
