-- ===== src/Paging/Tests.antt =====
-- Runs of src/paging.rs on a small mapper, and the theorems at them.
use agnost_os.Base.{
  true, ℕ, ◌+◌, ◌%◌, ◌≤◌, ◌<◌, ◌≡◌, ◌≢◌, ◌⊎◌, ◌↔◌, refl, false, none, some, arith, ok, err, get_or,
  [], ◌∷◌,
}
use agnost_os.Memory.{MemoryType, MemoryKind, MemoryMap, device, page_size}
use agnost_os.Frame.{OwnedFrame, page_table, from_reserved, frame_address}
use agnost_os.Paging.{
  PageTableArena, new_range, new_arena, reserve_frame, max_page_table_frames, not_device_memory,
  PagingError, range, misaligned, mapping_failed,
}
use agnost_os.Paging.Mapper.{IsPage}
use agnost_os.Paging.Arena.{IsArena, new_arena-IsArena, reserve_frame_lem}
use agnost_os.Paging.Pages.{Paging, map_page, map_on_mapper, map_device_page, global_kind_at}
use agnost_os.Paging.Mapping.{IsRooted, IsMapped, IsUnchanged, map_device_page_lem}
use agnost_os.Paging.Identity.{map_range, map_pages, last_page_end, Mapped, map_range_lem}
use agnost_os.Paging.Boot.{
  initialize, map_image, map_heap, map_framebuffer, map_stack, activate, memory_flags,
}
use agnost_os.Paging.Switch.{IsBooted, initialize-IsBooted}
use agnost_os.Paging.TableMapper.{table_mapper, table_map}

abbrev storage : ℕ
storage = 2097152

abbrev root_frame : OwnedFrame
root_frame = record { frame = record { address = storage }; owner = page_table }

abbrev started : Paging table_mapper storage
started = record {
  root = some (record { frame = root_frame; arena = new_arena });
  tables = (λ p. none, λ slot. none);
  active = false;
  cr3 = none;
}

started-IsRooted : IsRooted table_mapper storage started root_frame
started-IsRooted =
    (record { frame = root_frame; arena = new_arena }, refl, refl, new_arena-IsArena storage)

reserve_frame_lem_example :
    ((new_arena.count ≡ max_page_table_frames)
      × (reserve_frame storage new_arena ≡ (none, new_arena)))
    ⊎ ((new_arena.count < max_page_table_frames)
        × (address : ℕ) × (a' : PageTableArena) × (reserve_frame storage new_arena
            ≡ (some address, a'))
        × IsArena storage a'
        × (a'.count ≡ new_arena.count + 1)
        × (a'.cleared ≡ address ∷ new_arena.cleared)
        × (address ≢ storage)
        × ((i : ℕ) → i < new_arena.count → get_or new_arena.addresses i 0 ≢ address))
reserve_frame_lem_example = reserve_frame_lem storage new_arena (new_arena-IsArena storage) refl

low-IsPage : IsPage 8192
low-IsPage = (refl, omega arith, refl, λ e. omega arith)

abbrev one_page : Paging table_mapper storage
one_page = (map_page table_mapper storage started 8192 12288 memory_flags).1

run-map_page : map_page table_mapper storage started 8192 12288 memory_flags ≡ (ok tt, one_page)
unfolding map_page map_on_mapper table_map new_range
run-map_page = refl

abbrev device_map : MemoryMap
device_map = some (
    record {
      start = 4276092928;
      length = 4096;
      uefi_type = MemoryType.mmio;
      kind = MemoryKind.device;
    }
    ∷ [])

map_device_page_lem_example :
    ((s' : Paging table_mapper storage) × (map_device_page table_mapper storage device_map started
          8192 4276092928
        ≡ (ok tt, s'))
      × (4276092928 % page_size ≡ 0)
      × (global_kind_at device_map 4276092928 ≡ some device)
      × IsMapped table_mapper storage started s' 8192 4276092928
          (record { present = true; writable = true; no_cache = true; no_execute = true }))
    ⊎ ((e : PagingError) × (s' : Paging table_mapper storage) × (map_device_page table_mapper
            storage device_map started 8192 4276092928
          ≡ (err e, s'))
        × IsUnchanged table_mapper storage started s'
        × (((e ≡ range misaligned) × (4276092928 % page_size ≢ 0))
            ⊎ (((e ≡ not_device_memory)
                  × (4276092928 % page_size ≡ 0)
                  × (global_kind_at device_map 4276092928 ≢ some device))
                ⊎ ((e ≡ mapping_failed)
                    × (4276092928 % page_size ≡ 0)
                    × (global_kind_at device_map 4276092928 ≡ some device)))))
map_device_page_lem_example =
    map_device_page_lem table_mapper storage device_map started root_frame 8192 4276092928 refl
      started-IsRooted low-IsPage (omega arith)

map_range_lem_example :
    (first : ℕ) × (last : ℕ) × ((p : ℕ)
      → p % page_size ≡ 0
      → ((first ≤ p) × (p < last)) ↔ ((p < 8000 + 5000) × (8000 < p + page_size)))
    × Mapped table_mapper storage started root_frame first last memory_flags
        (map_range table_mapper storage started 8000 5000 memory_flags)
map_range_lem_example =
    map_range_lem table_mapper storage started root_frame 8000 5000 memory_flags refl
      started-IsRooted refl (omega arith)

abbrev before_boot : Paging table_mapper storage
before_boot = record { root = none; tables = (λ p. none, λ slot. none); active = false; cr3 = none }

abbrev booted : Paging table_mapper storage
booted =
    (initialize table_mapper storage before_boot (16777216, 8192) (2147483648, 5000) (2097000, 9000)
      1048600).1

run-initialize :
    initialize table_mapper storage before_boot
      (16777216, 8192)
      (2147483648, 5000)
      (2097000, 9000)
      1048600
    ≡ (ok tt, booted)
unfolding initialize map_image map_heap map_framebuffer map_stack activate map_range map_pages
    last_page_end map_page map_on_mapper table_map new_range from_reserved frame_address
run-initialize = refl

initialize-IsBooted_example :
    IsBooted table_mapper storage booted (16777216, 8192) (2147483648, 5000) (2097000, 9000) 1048600
initialize-IsBooted_example =
    initialize-IsBooted table_mapper storage before_boot booted (16777216, 8192) (2147483648, 5000)
      (2097000, 9000) 1048600 refl (omega arith) (omega arith) (omega arith) (omega arith)
      (omega arith) run-initialize
