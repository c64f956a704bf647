-- ===== src/Paging/Switch.antt =====
-- `initialize`, from start to end.
use agnost_os.Base.{
  ℕ, ◌+◌, ◌-◌, ◌*◌, ◌%◌, ◌^◌, ◌≤◌, ◌<◌, ◌≡◌, refl, sym, ap, ◌∙◌, inl, inr, Bool, true, false,
  Option, none, some, arith, ◌==◌, if◌then◌else◌, Bool-cases, Option-cases, ok,
}
use mathlib.Core.Path.{subst}
use agnost_os.Memory.{page_size}
use agnost_os.Frame.{OwnedFrame, frame_address, from_reserved, page_table}
use agnost_os.Paging.{new_arena, storage_address, recursive_index}
use agnost_os.Paging.Mapper.{Mapper, PageTableFlags}
use agnost_os.Paging.Arena.{new_arena-IsArena}
use agnost_os.Paging.Pages.{Paging, translation, device_flags}
use agnost_os.Paging.Mapping.{IsRooted}
use agnost_os.Paging.Boot.{
  image_flags, memory_flags, map_image, map_heap, map_framebuffer, map_stack, activate, initialize,
  meets,
}
use agnost_os.Paging.AddressSpace.{
  and_then-eq-ok, map_image-IsAdded, map_heap-IsAdded, map_framebuffer-IsAdded, map_stack-IsAdded,
}

-- The pages of the stack's window.
abbrev pub on_stack : ℕ → ℕ → Bool
on_stack page stack = meets page (stack - stack % page_size - 31 * page_size) (62 * page_size)

-- How a page is mapped by `initialize`: to itself, by what it belongs to, or not at all.
unfoldable pub boot_entry : ℕ × ℕ → ℕ × ℕ → ℕ × ℕ → ℕ → ℕ → Option (ℕ × PageTableFlags)
boot_entry (heap, heap_size) (framebuffer, size) (image, image_size) stack page =
    if meets page image image_size
    then some
        (page, record { present = true; writable = true; no_cache = false; no_execute = false })
    else if meets page heap heap_size
    then some
        (page, record { present = true; writable = true; no_cache = false; no_execute = true })
    else if meets page framebuffer size
    then some (page, record { present = true; writable = true; no_cache = true; no_execute = true })
    else if on_stack page stack
    then some
        (page, record { present = true; writable = true; no_cache = false; no_execute = true })
    else none

-- Entries that were each added where there was none: at most one of the tests holds.
at_most_one :
    (i h f k : Bool) (a b c : ℕ × PageTableFlags)
    → (h ≡ true → (if i then some a else none) ≡ none)
    → (f ≡ true → (if h then some b else if i then some a else none) ≡ none)
    → (k ≡ true → (if f then some c else if h then some b else if i then some a else none) ≡ none)
    → (h ≡ true → i ≡ false)
      × (f ≡ true → (i ≡ false) × (h ≡ false))
      × (k ≡ true → (i ≡ false) × (h ≡ false) × (f ≡ false))
at_most_one i h f k a b c p q r = (λ e. ground arith, λ e. ground arith, λ e. ground arith)

-- Then the order of the tests does not matter.
any_order :
    (i h f k : Bool) (a b c d : ℕ × PageTableFlags)
    → (h ≡ true → i ≡ false)
    → (f ≡ true → (i ≡ false) × (h ≡ false))
    → (k ≡ true → (i ≡ false) × (h ≡ false) × (f ≡ false))
    → (if k then some d else if f then some c else if h then some b else if i then some a else none)
      ≡ (if i
          then some a
          else if h
          then some b
          else if f
          then some c
          else if k
          then some d
          else none)
any_order i h f k a b c d p q r = ground arith

module _ (mapper : Mapper) (storage : ℕ) where
  -- The address space that the kernel has switched to.
  pub record IsBooted (s : Paging mapper storage) (heap framebuffer image : ℕ × ℕ) (stack : ℕ)
      : Type 0 where
    pub active : s.active ≡ true
    pub cr3 : s.cr3 ≡ some storage
    pub rooted :
        IsRooted mapper storage s
          (record { frame = record { address = storage }; owner = page_table })
    pub recursive :
        mapper.entry s.tables recursive_index
        ≡ some (
          storage,
          record { present = true; writable = true; no_cache = false; no_execute = false },
        )
    pub translations :
        (p : ℕ) → translation mapper storage s p ≡ boot_entry heap framebuffer image stack p
    -- No page belongs to two of the four.
    pub apart :
        (p : ℕ)
        → (meets p heap.0 heap.1 ≡ true → meets p image.0 image.1 ≡ false)
          × (meets p framebuffer.0 framebuffer.1 ≡ true
              → (meets p image.0 image.1 ≡ false) × (meets p heap.0 heap.1 ≡ false))
          × (on_stack p stack ≡ true
              → (meets p image.0 image.1 ≡ false)
                × (meets p heap.0 heap.1 ≡ false)
                × (meets p framebuffer.0 framebuffer.1 ≡ false))

  first_root :
      storage % page_size ≡ 0
      → from_reserved (storage_address storage 0) page_table
        ≡ some (record { frame = record { address = storage }; owner = page_table })
  unfolding from_reserved frame_address
  first_root aligned = ground arith

  abbrev owned_root : OwnedFrame
  owned_root = record { frame = record { address = storage }; owner = page_table }

  abbrev rooted_state : Paging mapper storage → Paging mapper storage
  rooted_state s = record s {
    root = some (record { frame = owned_root; arena = new_arena });
    tables = mapper.empty_tables;
  }

  initialize-ok :
      (s : Paging mapper storage) (heap framebuffer image : ℕ × ℕ) (stack : ℕ)
      {s' : Paging mapper storage}
      → storage % page_size ≡ 0
      → initialize mapper storage s heap framebuffer image stack ≡ (ok tt, s')
      → (s1 s2 s3 s4 : Paging mapper storage) × (map_image mapper storage (rooted_state s) image
          ≡ (ok tt, s1))
        × (map_heap mapper storage s1 heap ≡ (ok tt, s2))
        × (map_framebuffer mapper storage s2 framebuffer ≡ (ok tt, s3))
        × (map_stack mapper storage s3 stack ≡ (ok tt, s4))
        × (activate mapper storage s4 (storage_address storage 0) ≡ (ok tt, s'))
  unfolding initialize
  initialize-ok s heap framebuffer image stack {s'} aligned h = elim (Option-cases s.root) [
    | inr (r, e) ↦ let h' = rw (e, initialize) at h in absurd (cc)
    | inl e ↦ elim (Bool-cases (mapper.table_size == page_size)) [
      | inr other ↦ let h' = rw (e, initialize, other) at h in absurd (cc)
      | inl size ↦
          let h0 = rw (e, initialize, size, first_root aligned) at h in
          let (s1, e1, h1) =
            and_then-eq-ok mapper storage (map_image mapper storage (rooted_state s) image) _ h0 in
          let (s2, e2, h2) = and_then-eq-ok mapper storage (map_heap mapper storage s1 heap) _ h1 in
          let (s3, e3, h3) =
            and_then-eq-ok mapper storage (map_framebuffer mapper storage s2 framebuffer) _ h2 in
          let (s4, e4, h4) =
            and_then-eq-ok mapper storage (map_stack mapper storage s3 stack) _ h3 in
          (s1, s2, s3, s4, e1, e2, e3, e4, h4)
    ]
  ]

  -- An initialization that succeeds, with the page-table storage aligned, a heap that is not empty
  -- and ranges that end at 2^47 or before, has switched to an address space in which the pages of the
  -- kernel's image, the heap, the framebuffer and the stack's window, no page of two of them,
  -- translate to themselves: all writable, only those of the image executable, and only those of the
  -- framebuffer uncached. No other page is mapped. The recursive slot of the root table points at the
  -- root itself, and so does CR3.
  pub initialize-IsBooted :
      (s s' : Paging mapper storage) (heap framebuffer image : ℕ × ℕ) (stack : ℕ)
      → storage % page_size ≡ 0
      → 0 < heap.1
      → heap.0 + heap.1 ≤ 2 ^ 47
      → framebuffer.0 + framebuffer.1 ≤ 2 ^ 47
      → image.0 + image.1 ≤ 2 ^ 47
      → stack + 32 * page_size ≤ 2 ^ 47
      → initialize mapper storage s heap framebuffer image stack ≡ (ok tt, s')
      → IsBooted s' heap framebuffer image stack
  unfolding activate boot_entry
  initialize-IsBooted s s' (hs, hn) (fs, fn) (is, in_) stack aligned pos hb fb ib sb h =
      let (s1, s2, s3, s4, e1, e2, e3, e4, e5) =
        initialize-ok s (hs, hn) (fs, fn) (is, in_) stack aligned h in
      let v0 : IsRooted mapper storage (rooted_state s) owned_root =
        (record { frame = owned_root; arena = new_arena }, refl, refl, new_arena-IsArena storage) in
      let a1 =
        map_image-IsAdded mapper storage aligned (rooted_state s) s1 owned_root v0 is in_ ib e1 in
      let v1 = a1.keeps.rooted in
      let a2 = map_heap-IsAdded mapper storage aligned s1 s2 owned_root v1 hs hn pos hb e2 in
      let v2 = a2.keeps.rooted in
      let a3 = map_framebuffer-IsAdded mapper storage aligned s2 s3 owned_root v2 fs fn fb e3 in
      let v3 = a3.keeps.rooted in
      let a4 = map_stack-IsAdded mapper storage aligned s3 s4 owned_root v3 stack sb e4 in
      let t1 : (p : ℕ)
          → translation mapper storage s1 p
            ≡ (if meets p is in_ then some (p, image_flags) else none) =
        λ p. rw (← mapper.translate-empty p) (a1.translations p) in
      let t2 : (p : ℕ)
          → translation mapper storage s2 p ≡ (
              if meets p hs hn
              then some (p, memory_flags)
              else if meets p is in_
              then some (p, image_flags)
              else none) =
        λ p.
          a2.translations p
          ∙ ap (λ x. if meets p hs hn then some (p, memory_flags) else x) (t1 p) in
      let t3 : (p : ℕ)
          → translation mapper storage s3 p ≡ (
              if meets p fs fn
              then some (p, device_flags)
              else if meets p hs hn
              then some (p, memory_flags)
              else if meets p is in_
              then some (p, image_flags)
              else none) =
        λ p.
          a3.translations p
          ∙ ap (λ x. if meets p fs fn then some (p, device_flags) else x) (t2 p) in
      let one = λ (p : ℕ).
        at_most_one (meets p is in_) (meets p hs hn) (meets p fs fn) (on_stack p stack)
          (p, image_flags) (p, memory_flags) (p, device_flags) (λ e. sym (t1 p) ∙ a2.were_free p e)
          (λ e. sym (t2 p) ∙ a3.were_free p e) (λ e. sym (t3 p) ∙ a4.were_free p e) in
      let last : Paging mapper storage = record s4 {
        tables = mapper.set_entry s4.tables recursive_index (storage_address storage 0) image_flags;
        cr3 = some (storage_address storage 0);
        active = true;
      } in
      let same : last ≡ s' = cc in
      subst (λ x. IsBooted x (hs, hn) (fs, fn) (is, in_) stack) same
        (record {
          active = refl;
          cr3 = ground arith;
          rooted = a4.keeps.rooted;
          recursive =
              mapper.entry-set_entry s4.tables recursive_index (storage_address storage 0)
                image_flags
              ∙ ap (λ address. some (address, image_flags)) (omega arith);
          translations = λ p.
              mapper.translate-set_entry s4.tables (storage_address storage 0) p image_flags
              ∙ (a4.translations p
                  ∙ (ap (λ x. if on_stack p stack then some (p, memory_flags) else x) (t3 p)
                      ∙ any_order (meets p is in_) (meets p hs hn) (meets p fs fn)
                          (on_stack p stack) (p, image_flags) (p, memory_flags) (p, device_flags)
                          (p, memory_flags) (one p).0 (one p).1 (one p).2));
          apart = one;
        })
