-- ===== src/Memory.antt =====
-- src/memory.rs: the kernel's copy of the firmware memory map.
-- A snapshot is the list of its live ranges, `ranges[..count]` of the fixed array; the entries
-- past `count` are never read. Addresses and lengths are `u64` values, and `usize` is 64 bits.
pub mod Copy
pub mod Pieces
pub mod Reserve
pub mod Errors
pub mod Summary
pub mod Tests
use agnost_os.Base.{
  ℕ, zero, suc, ◌+◌, ◌-◌, ◌*◌, ◌≤◌, ◌<◌, min, max, ◌≡◌, Bool, true, false, not, ◌&&◌, ◌||◌, Option,
  none, some, List, [], ◌∷◌, ◌++◌, ltb, leb, ◌==◌, if◌then◌else◌, Result, ok, err, ◌>>=◌, length,
  checked, saturating,
}

abbrev pub max_memory_ranges : ℕ
max_memory_ranges = 256

abbrev pub page_size : ℕ
page_size = 4096

-- The descriptor types of the `uefi` crate that the kernel tells apart; `other` is any further one.
pub data MemoryType : Type 0 where
  reserved_memory loader_code loader_data : MemoryType
  boot_services_code boot_services_data : MemoryType
  runtime_services_code runtime_services_data : MemoryType
  conventional unusable_memory acpi_reclaim acpi_non_volatile : MemoryType
  mmio mmio_port_space : MemoryType
  other : ℕ → MemoryType

-- The fields of a firmware descriptor that the kernel reads.
pub record Descriptor : Type 0 where
  pub ty : MemoryType
  pub phys_start : ℕ
  pub page_count : ℕ

pub data MemoryKind : Type 0 where
  usable kernel firmware acpi device runtime unusable reserved : MemoryKind

unfoldable pub from_uefi_type : MemoryType → MemoryKind
from_uefi_type MemoryType.conventional = MemoryKind.usable
from_uefi_type MemoryType.loader_code = MemoryKind.kernel
from_uefi_type MemoryType.loader_data = MemoryKind.kernel
from_uefi_type MemoryType.boot_services_code = MemoryKind.firmware
from_uefi_type MemoryType.boot_services_data = MemoryKind.firmware
from_uefi_type MemoryType.acpi_reclaim = MemoryKind.acpi
from_uefi_type MemoryType.acpi_non_volatile = MemoryKind.acpi
from_uefi_type MemoryType.mmio = MemoryKind.device
from_uefi_type MemoryType.mmio_port_space = MemoryKind.device
from_uefi_type MemoryType.runtime_services_code = MemoryKind.runtime
from_uefi_type MemoryType.runtime_services_data = MemoryKind.runtime
from_uefi_type MemoryType.unusable_memory = MemoryKind.unusable
from_uefi_type _ = MemoryKind.reserved

pub record MemoryRange : Type 0 where
  pub start : ℕ
  pub length : ℕ
  pub uefi_type : MemoryType
  pub kind : MemoryKind

abbrev pub range_end : MemoryRange → ℕ
range_end r = saturating (r.start + r.length)

abbrev pub contains : MemoryRange → ℕ → Bool
contains r address = leb r.start address && ltb address (range_end r)

abbrev pub Snapshot : Type 0
Snapshot = List MemoryRange

pub data MemoryMapError : Type 0 where
  already_initialized empty invalid_range range_not_found too_many_ranges not_initialized :
      MemoryMapError

unfoldable pub kind_at : Snapshot → ℕ → Option MemoryKind
kind_at [] address = none
kind_at (r ∷ rs) address = if contains r address then some r.kind else kind_at rs address

-- One descriptor's range, or why it has none.
unfoldable pub to_range : Descriptor → Result MemoryMapError MemoryRange
to_range d = elim (checked (d.page_count * page_size)) [
  | none ↦ err invalid_range
  | some len ↦ elim (checked (d.phys_start + len)) [
    | none ↦ err invalid_range
    | some end ↦
        if len == 0 || leb end d.phys_start
        then err invalid_range
        else ok (record {
          start = d.phys_start;
          length = len;
          uefi_type = d.ty;
          kind = from_uefi_type d.ty;
        })
  ]
]

unfoldable pub copy_entries : List Descriptor → Snapshot → Result MemoryMapError Snapshot
copy_entries [] snapshot = ok snapshot
copy_entries (d ∷ ds) snapshot =
    if length snapshot == max_memory_ranges
    then err too_many_ranges
    else elim (to_range d) [ err e ↦ err e | ok r ↦ copy_entries ds (snapshot ++ r ∷ []) ]

abbrev pub is_empty : Snapshot → Bool
is_empty [] = true
is_empty (_ ∷ _) = false

unfoldable pub copy_from : List Descriptor → Result MemoryMapError Snapshot
copy_from entries = do
  snapshot ← copy_entries entries []
  if is_empty snapshot then err empty else ok snapshot

-- `push` of `reserve_range`.
unfoldable pub push_range : Snapshot → MemoryRange → Result MemoryMapError Snapshot
push_range replacement value =
    if value.length == 0
    then ok replacement
    else if length replacement == max_memory_ranges
    then err too_many_ranges
    else ok (replacement ++ value ∷ [])

-- The body of the loop of `reserve_range`, for one of the old ranges.
unfoldable pub reserve_one :
    ℕ → ℕ → MemoryKind → MemoryRange → Snapshot × Bool → Result MemoryMapError (Snapshot × Bool)
reserve_one start end kind range (replacement, overlapped) =
    let overlap_start = max start range.start in
    let overlap_end = min end (range_end range) in
    if leb overlap_end overlap_start
    then (if length replacement == max_memory_ranges
        then err too_many_ranges
        else ok (replacement ++ range ∷ [], overlapped))
    else do
      left ← push_range replacement (record range { length = overlap_start - range.start })
      middle ← push_range left (record range {
        start = overlap_start;
        length = overlap_end - overlap_start;
        kind = kind;
      })
      right ←
          push_range middle
            (record range { start = overlap_end; length = range_end range - overlap_end })
      ok (right, true)

unfoldable pub reserve_loop :
    ℕ
    → ℕ
    → MemoryKind
    → List MemoryRange
    → Snapshot × Bool
    → Result MemoryMapError (Snapshot × Bool)
reserve_loop start end kind [] state = ok state
reserve_loop start end kind (range ∷ old) state =
    reserve_one start end kind range state >>= reserve_loop start end kind old

unfoldable pub reserve_range :
    Snapshot → ℕ → ℕ → MemoryKind → Result MemoryMapError (Unit {0}) × Snapshot
reserve_range s start len kind = elim (checked (start + len)) [
  | none ↦ (err invalid_range, s)
  | some end ↦
      if len == 0 || leb end start
      then (err invalid_range, s)
      else elim (reserve_loop start end kind s ([], false)) [
        | err e ↦ (err e, s)
        | ok (replacement, overlapped) ↦
            if overlapped then (ok tt, replacement) else (err range_not_found, s)
      ]
]

unfoldable pub add_external_range :
    Snapshot → ℕ → ℕ → MemoryKind → Result MemoryMapError (Unit {0}) × Snapshot
add_external_range s start len kind = elim (checked (start + len)) [
  | none ↦ (err invalid_range, s)
  | some end ↦
      if len == 0 || leb end start || length s == max_memory_ranges
      then (err invalid_range, s)
      else (
        ok tt,
        s ++ record { start = start; length = len; uefi_type = MemoryType.mmio; kind = kind } ∷ [],
      )
]

-- The framebuffer's range becomes device memory, inside the map or added to it.
unfoldable pub add_framebuffer : Snapshot → Option (ℕ × ℕ) → Result MemoryMapError Snapshot
add_framebuffer s none = ok s
add_framebuffer s (some (start, len)) =
    let (r, s') = reserve_range s start len MemoryKind.device in
    elim r [
      | ok _ ↦ ok s'
      | err range_not_found ↦
          let (added, s'') = add_external_range s' start len MemoryKind.device in
          elim added [ ok _ ↦ ok s'' | err e ↦ err e ]
      | err e ↦ err e
    ]

-- `MEMORY_MAP`, none until `initialize` has succeeded.
abbrev pub MemoryMap : Type 0
MemoryMap = Option Snapshot

unfoldable pub initialize :
    MemoryMap → List Descriptor → Option (ℕ × ℕ) → Result MemoryMapError (Unit {0}) × MemoryMap
initialize (some s) entries framebuffer = (err already_initialized, some s)
initialize none entries framebuffer =
    elim (copy_from entries >>= λ s. add_framebuffer s framebuffer) [
      | ok s ↦ (ok tt, some s)
      | err e ↦ (err e, none)
    ]

unfoldable pub reserve :
    MemoryMap → ℕ → ℕ → MemoryKind → Result MemoryMapError (Unit {0}) × MemoryMap
reserve none start len kind = (err not_initialized, none)
reserve (some s) start len kind = let (r, s') = reserve_range s start len kind in (r, some s')
