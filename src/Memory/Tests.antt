-- ===== src/Memory/Tests.antt =====
-- Runs of the memory map's operations on a small firmware map, and the theorems at it.
use agnost_os.Base.{ℕ, ◌+◌, ◌≡◌, ◌⊎◌, refl, none, some, List, [], ◌∷◌, arith, ok, err}
use agnost_os.Memory.{
  MemoryType, MemoryKind, Descriptor, MemoryRange, Snapshot, from_uefi_type, kind_at, to_range,
  copy_entries, copy_from, push_range, reserve_one, reserve_loop, reserve_range, add_external_range,
  add_framebuffer, initialize, range_not_found,
}
use agnost_os.Memory.MemoryType.{conventional, mmio, acpi_reclaim}
use agnost_os.Memory.MemoryKind.{usable, kernel, device, acpi}
use agnost_os.Memory.Reserve.{IsMap, reserved_kind, reserve_range_lem}
use agnost_os.Memory.Errors.{IsMet, IsMissed, reserve_range-found}
use agnost_os.Memory.Copy.{IsInitialKind, initialize_lem}
use agnost_os.Memory.Summary.{summary, all_bytes, total, summary-reserve_range}

abbrev firmware_map : List Descriptor
firmware_map =
    record { ty = conventional; phys_start = 4096; page_count = 4 }
    ∷ record { ty = acpi_reclaim; phys_start = 20480; page_count = 1 }
    ∷ []

abbrev range : ℕ → ℕ → MemoryType → MemoryKind → MemoryRange
range start len ty kind = record { start = start; length = len; uefi_type = ty; kind = kind }

abbrev initial : Snapshot
initial = range 4096 16384 conventional usable ∷ range 20480 4096 acpi_reclaim acpi ∷ []

-- Two pages in the middle of the first range, for the kernel.
abbrev after : Snapshot
after =
    range 4096 4096 conventional usable
    ∷ range 8192 8192 conventional kernel
    ∷ range 16384 4096 conventional usable
    ∷ range 20480 4096 acpi_reclaim acpi
    ∷ []

run-reserve_range : reserve_range initial 8192 8192 kernel ≡ (ok tt, after)
unfolding reserve_range reserve_loop reserve_one push_range
run-reserve_range = refl

run-not_found : reserve_range initial 65536 4096 kernel ≡ (err range_not_found, initial)
unfolding reserve_range reserve_loop reserve_one push_range
run-not_found = refl

initial-IsMap : IsMap initial
initial-IsMap = record {
  ranges = ((omega arith, omega arith), ((omega arith, omega arith), tt));
  count = omega arith;
}

reserve_range_lem_example :
    IsMap after
    × ((address : ℕ)
        → kind_at after address
          ≡ reserved_kind 8192 (8192 + 8192) kernel address (kind_at initial address))
reserve_range_lem_example =
    reserve_range_lem initial 8192 8192 kernel initial-IsMap run-reserve_range

reserve_range-found_example :
    ((s' : Snapshot) × (reserve_range initial 65536 4096 kernel ≡ (ok tt, s'))
      × IsMet 65536 (65536 + 4096) initial)
    ⊎ ((reserve_range initial 65536 4096 kernel ≡ (err range_not_found, initial))
        × IsMissed 65536 (65536 + 4096) initial)
reserve_range-found_example =
    reserve_range-found initial 65536 4096 kernel (omega arith) (omega arith) (omega arith)

abbrev with_screen : Snapshot
with_screen =
    range 4096 16384 conventional usable
    ∷ range 20480 4096 acpi_reclaim acpi
    ∷ range 65536 8192 mmio device
    ∷ []

run-initialize : initialize none firmware_map (some (65536, 8192)) ≡ (ok tt, some with_screen)
unfolding initialize copy_from copy_entries to_range from_uefi_type add_framebuffer reserve_range
    reserve_loop reserve_one push_range add_external_range
run-initialize = refl

initialize_lem_example :
    IsMap with_screen × ((address : ℕ) → IsInitialKind firmware_map 65536 8192 with_screen address)
initialize_lem_example = initialize_lem firmware_map 65536 8192 run-initialize

run-total : total initial ≡ 20480
unfolding total
run-total = refl

summary-reserve_range_example : all_bytes (summary after) ≡ all_bytes (summary initial)
summary-reserve_range_example =
    summary-reserve_range initial 8192 8192 kernel initial-IsMap (omega (arith, run-total))
      run-reserve_range
