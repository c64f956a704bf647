-- ===== src/Paging.antt =====
-- src/paging.rs: virtual ranges, the layout of the kernel's address space, the arena of page tables
-- and the mapping of pages and ranges. The page tables themselves are those of the `x86_64` crate,
-- a parameter (Paging.Mapper).
pub mod Mapper
pub mod Range
pub mod Layout
pub mod Arena
pub mod Pages
pub mod Mapping
pub mod Identity
pub mod Boot
pub mod AddressSpace
pub mod Switch
pub mod TableMapper
pub mod Tests
use agnost_os.Base.{
  ℕ, zero, suc, ◌+◌, ◌-◌, ◌*◌, ◌/◌, ◌%◌, ◌^◌, Bool, true, false, not, ◌||◌, Option, none, some,
  List, [], ◌∷◌, ltb, leb, ◌==◌, if◌then◌else◌, Result, ok, err, ok_or, ◌>>=◌, set, replicate,
  checked,
}
use agnost_os.Memory.{page_size, MemoryKind, MemoryMapError}
use agnost_os.Frame.{FrameOwner, FrameError, OwnedFrame, from_reserved, page_table}

abbrev pub low_canonical_max : ℕ
low_canonical_max = 0x00007fffffffffff

abbrev pub high_canonical_min : ℕ
high_canonical_min = 0xffff800000000000

abbrev pub kernel_base : ℕ
kernel_base = 0xffff800000000000

abbrev pub heap_base : ℕ
heap_base = 0xffff900000000000

abbrev pub framebuffer_base : ℕ
framebuffer_base = 0xffffa00000000000

abbrev pub mmio_base : ℕ
mmio_base = 0xffffb00000000000

abbrev pub stack_base : ℕ
stack_base = 0xffffc00000000000

abbrev pub max_page_table_frames : ℕ
max_page_table_frames = 512

abbrev pub recursive_index : ℕ
recursive_index = 510

pub data VirtualRangeError : Type 0 where
  empty misaligned non_canonical overflow : VirtualRangeError

pub record VirtualRange : Type 0 where
  pub start : ℕ
  pub length : ℕ

abbrev pub is_canonical : ℕ → Bool
is_canonical address = leb address low_canonical_max || leb high_canonical_min address

unfoldable pub new_range : ℕ → ℕ → Result VirtualRangeError VirtualRange
new_range start length =
    if length == 0
    then err empty
    else if not (start % page_size == 0) || not (length % page_size == 0)
    then err misaligned
    else elim (checked (start + (length - 1))) [
      | none ↦ err overflow
      | some end ↦
          if not (is_canonical start) || not (is_canonical end)
          then err non_canonical
          else ok (record { start = start; length = length })
    ]

pub record VirtualMemoryLayout : Type 0 where
  pub kernel : VirtualRange
  pub heap : VirtualRange
  pub framebuffer : VirtualRange
  pub mmio : VirtualRange
  pub stacks : VirtualRange

-- One window of 1 TiB. A refusal would be a panic when the constant is computed.
unfoldable pub region : ℕ → Result VirtualRangeError VirtualRange
unfolding new_range
region start = new_range start (2 ^ 40)

unfoldable pub layout : Result VirtualRangeError VirtualMemoryLayout
unfolding region
layout = do
  kernel ← region kernel_base
  heap ← region heap_base
  framebuffer ← region framebuffer_base
  mmio ← region mmio_base
  stacks ← region stack_base
  ok (record {
    kernel = kernel;
    heap = heap;
    framebuffer = framebuffer;
    mmio = mmio;
    stacks = stacks;
  })

pub data PagingError : Type 0 where
  already_initialized not_initialized : PagingError
  frame : FrameError → PagingError
  memory_map : MemoryMapError → PagingError
  address_too_large invalid_page_table_size mapping_failed unmapping_failed not_device_memory :
      PagingError
  range : VirtualRangeError → PagingError

-- `PageTableArena`; `cleared` logs the frames in which an empty table has been written.
pub record PageTableArena : Type 0 where
  pub frames : List (Option OwnedFrame)
  pub addresses : List ℕ
  pub count : ℕ
  pub cleared : List ℕ

unfoldable pub new_arena : PageTableArena
new_arena = record {
  frames = replicate max_page_table_frames none;
  addresses = replicate max_page_table_frames 0;
  count = 0;
  cleared = [];
}

-- `storage` is where the image keeps PAGE_TABLE_STORAGE, an array of tables of one page each.
abbrev pub storage_address : ℕ → ℕ → ℕ
storage_address storage index = storage + index * page_size

-- `reserve_frame`, which is `allocate_frame` of the arena.
unfoldable pub reserve_frame : ℕ → PageTableArena → Option ℕ × PageTableArena
unfolding from_reserved
reserve_frame storage arena =
    if arena.count == max_page_table_frames
    then (none, arena)
    else (let address = storage_address storage (arena.count + 1) in
        elim (from_reserved address page_table) [
          | none ↦ (none, arena)
          | some owned ↦ (
            some address,
            record {
              frames = set arena.frames arena.count (some owned);
              addresses = set arena.addresses arena.count address;
              count = arena.count + 1;
              cleared = address ∷ arena.cleared;
            },
          )
        ])

pub record PageTableRoot : Type 0 where
  pub frame : OwnedFrame
  pub arena : PageTableArena

-- `recursive_table_address`: the four indices are fields of nine bits, so that `|` is `+`.
abbrev pub recursive_table_address : ℕ
recursive_table_address =
    recursive_index * 2 ^ 39
    + recursive_index * 2 ^ 30
    + recursive_index * 2 ^ 21
    + recursive_index * 2 ^ 12
    + 0xffff000000000000
