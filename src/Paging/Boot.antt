-- ===== src/Paging/Boot.antt =====
-- `initialize`: the address space that the kernel switches to.
use agnost_os.Base.{
  ℕ, ◌+◌, ◌-◌, ◌*◌, ◌%◌, Bool, true, false, not, ◌&&◌, none, some, ltb, ◌==◌, if◌then◌else◌, ok,
  err, checked,
}
use agnost_os.Memory.{page_size}
use agnost_os.Frame.{from_reserved, page_table}
use agnost_os.Paging.{
  already_initialized, invalid_page_table_size, address_too_large, new_arena, storage_address,
  recursive_index,
}
use agnost_os.Paging.Mapper.{Mapper, PageTableFlags}
use agnost_os.Paging.Pages.{Paging, Outcome, device_flags}
use agnost_os.Paging.Identity.{map_range}

abbrev pub image_flags : PageTableFlags
image_flags = record { present = true; writable = true; no_cache = false; no_execute = false }

abbrev pub memory_flags : PageTableFlags
memory_flags = record { present = true; writable = true; no_cache = false; no_execute = true }

-- Whether a page has an address in common with a range.
abbrev pub meets : ℕ → ℕ → ℕ → Bool
meets page start length =
    (page % page_size == 0) && (ltb page (start + length) && ltb start (page + page_size))

module _ (mapper : Mapper) (storage : ℕ) where
  -- `?` between two steps on the state.
  abbrev pub and_then :
      Outcome mapper storage (Unit {0})
      → (Paging mapper storage → Outcome mapper storage (Unit {0}))
      → Outcome mapper storage (Unit {0})
  and_then (err e, s) next = (err e, s)
  and_then (ok _, s) next = next s

  unfoldable pub map_image : Paging mapper storage → ℕ × ℕ → Outcome mapper storage (Unit {0})
  map_image s (start, size) =
      let image_start = start - start % page_size in
      elim (checked (start + size)) [
        | none ↦ (err address_too_large, s)
        | some image_end ↦
            map_range mapper storage s image_start (image_end - image_start) image_flags
      ]

  unfoldable pub map_heap : Paging mapper storage → ℕ × ℕ → Outcome mapper storage (Unit {0})
  map_heap s (heap_start, heap_size) =
      if not (heap_size == 0)
      then map_range mapper storage s heap_start heap_size memory_flags
      else (ok tt, s)

  unfoldable pub map_framebuffer : Paging mapper storage → ℕ × ℕ → Outcome mapper storage (Unit {0})
  map_framebuffer s (start, size) =
      let framebuffer_start = start - start % page_size in
      elim (checked (start + size)) [
        | none ↦ (err address_too_large, s)
        | some framebuffer_end ↦
            map_range mapper storage s framebuffer_start (framebuffer_end - framebuffer_start)
              device_flags
      ]

  -- `stack` is the address of a variable on the stack.
  unfoldable pub map_stack : Paging mapper storage → ℕ → Outcome mapper storage (Unit {0})
  map_stack s stack =
      let stack_page = stack - stack % page_size in
      map_range mapper storage s (stack_page - 31 * page_size) (62 * page_size) memory_flags

  -- The recursive entry is set, and the root goes to CR3.
  unfoldable pub activate : Paging mapper storage → ℕ → Outcome mapper storage (Unit {0})
  activate s address = (
    ok tt,
    record s {
      tables = mapper.set_entry s.tables recursive_index address image_flags;
      cr3 = some address;
      active = true;
    },
  )

  unfoldable pub initialize :
      Paging mapper storage → ℕ × ℕ → ℕ × ℕ → ℕ × ℕ → ℕ → Outcome mapper storage (Unit {0})
  initialize s heap framebuffer kernel_image stack = elim s.root [
    | some _ ↦ (err already_initialized, s)
    | none ↦
        if not (mapper.table_size == page_size)
        then (err invalid_page_table_size, s)
        else (let address = storage_address storage 0 in
            elim (from_reserved address page_table) [
              | none ↦ (err address_too_large, s)
              | some owned ↦
                  let s0 = record s {
                    root = some (record { frame = owned; arena = new_arena });
                    tables = mapper.empty_tables;
                  } in
                  and_then (map_image s0 kernel_image) λ s1. and_then (map_heap s1 heap) λ s2.
                    and_then (map_framebuffer s2 framebuffer)
                      λ s3. and_then (map_stack s3 stack) λ s4. activate s4 address
            ])
  ]
