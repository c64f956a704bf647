-- ===== src/Paging/Pages.antt =====
-- `map_page`, `map_device_page` and `unmap_page`, on the global root of the page tables.
use agnost_os.Base.{
  ℕ, ◌%◌, Bool, true, false, not, Option, none, some, ◌==◌, if◌then◌else◌, Result, ok, err,
}
use agnost_os.Memory.{MemoryKind, MemoryMap, page_size, kind_at}
use agnost_os.Paging.{
  PagingError, PageTableRoot, new_range, reserve_frame, range, misaligned, not_initialized,
  mapping_failed, unmapping_failed, not_device_memory,
}
use agnost_os.Paging.Mapper.{Mapper, PageTableFlags, Access}

-- `memory::kind_at`, of the global map.
unfoldable pub global_kind_at : MemoryMap → ℕ → Option MemoryKind
global_kind_at none address = none
global_kind_at (some map) address = kind_at map address

abbrev pub is_device : Option MemoryKind → Bool
is_device (some MemoryKind.device) = true
is_device _ = false

abbrev pub device_flags : PageTableFlags
device_flags = record { present = true; writable = true; no_cache = true; no_execute = true }

-- `storage` is the address of the page-table storage in the image.
module _ (mapper : Mapper) (storage : ℕ) where
  -- PAGE_TABLE_ROOT, the tables that it roots, PAGING_ACTIVE, and the register CR3 once it is written.
  pub record Paging : Type 0 where
    pub root : Option PageTableRoot
    pub tables : mapper.Tables
    pub active : Bool
    pub cr3 : Option ℕ

  abbrev pub Outcome : Type 0 → Type 0
  Outcome A = Result PagingError A × Paging

  -- Which mapper the functions use.
  abbrev pub access_of : Paging → Access
  access_of s = if s.active then Access.recursive else Access.offset

  -- `with_offset_mapper` and `with_recursive_mapper` around `map_on_mapper`.
  unfoldable pub map_on_mapper : Paging → ℕ → ℕ → PageTableFlags → Outcome (Unit {0})
  map_on_mapper s page frame flags = elim s.root [
    | none ↦ (err not_initialized, s)
    | some root ↦
        let (done, arena, tables) =
          mapper.map_to (access_of s) (reserve_frame storage) page frame flags root.arena
            s.tables in
        let s' = record s { root = some (record root { arena = arena }); tables = tables } in
        (if done then ok tt else err mapping_failed, s')
  ]

  unfoldable pub unmap_on_mapper : Paging → ℕ → Outcome ℕ
  unmap_on_mapper s page = elim s.root [
    | none ↦ (err not_initialized, s)
    | some root ↦
        let (found, tables) = mapper.unmap (access_of s) page s.tables in
        let s' = record s { tables = tables } in
        elim found [ some frame ↦ (ok frame, s') | none ↦ (err unmapping_failed, s') ]
  ]

  unfoldable pub map_page : Paging → ℕ → ℕ → PageTableFlags → Outcome (Unit {0})
  map_page s virtual physical flags = elim (new_range virtual page_size) [
    | err e ↦ (err (range e), s)
    | ok r ↦
        if not (physical % page_size == 0)
        then (err (range misaligned), s)
        else map_on_mapper s r.start physical flags
  ]

  unfoldable pub map_device_page : MemoryMap → Paging → ℕ → ℕ → Outcome (Unit {0})
  map_device_page map s virtual physical =
      if not (physical % page_size == 0)
      then (err (range misaligned), s)
      else if not (is_device (global_kind_at map physical))
      then (err not_device_memory, s)
      else map_page s virtual physical device_flags

  unfoldable pub unmap_page : Paging → ℕ → Outcome ℕ
  unmap_page s virtual = elim (new_range virtual page_size) [
    | err e ↦ (err (range e), s)
    | ok r ↦ unmap_on_mapper s r.start
  ]

  abbrev pub translation : Paging → ℕ → Option (ℕ × PageTableFlags)
  translation s page = mapper.translate s.tables page
