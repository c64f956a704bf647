-- ===== src/Paging/Mapper.antt =====
-- The page tables of the `x86_64` crate, as src/paging.rs uses them: `OffsetPageTable` and
-- `RecursivePageTable` over one hierarchy of tables, with what their documentation promises of the
-- translation of a page.
use agnost_os.Base.{
  ℕ, ◌<◌, ◌/◌, ◌%◌, ◌^◌, ◌≡◌, ◌≢◌, Bool, true, false, Option, none, some, ◌==◌, if◌then◌else◌,
}
use agnost_os.Memory.{page_size}
use agnost_os.Paging.{PageTableArena, is_canonical, recursive_index}

-- `PageTableFlags`, those that the kernel uses.
pub record PageTableFlags : Type 0 where
  pub present : Bool
  pub writable : Bool
  pub no_cache : Bool
  pub no_execute : Bool

-- Which of the two mappers reaches the tables.
pub data Access : Type 0 where
  offset recursive : Access

abbrev pub Allocate : Type 0
Allocate = PageTableArena → Option ℕ × PageTableArena

-- The slot of the root table in which a page lies.
abbrev pub root_slot : ℕ → ℕ
root_slot page = page / 2 ^ 39 % 512

-- A page: aligned, canonical, and not in the slot through which the tables themselves are reached.
abbrev pub IsPage : ℕ → Type 0
IsPage page =
    (page % page_size ≡ 0)
    × (page < 2 ^ 64)
    × (is_canonical page ≡ true)
    × (root_slot page ≢ recursive_index)

-- A frame that the crate's `PhysAddr` accepts.
abbrev pub IsFrame : ℕ → Type 0
IsFrame frame = (frame % page_size ≡ 0) × (frame < 2 ^ 52)

pub record Mapper : Type 1 where
  pub Tables : Type 0
  -- `size_of::<PageTable>()`.
  pub table_size : ℕ
  pub empty_tables : Tables
  -- Whether the call succeeded; the arena is asked for frames by the function that is passed.
  pub map_to :
      Access
      → Allocate
      → ℕ
      → ℕ
      → PageTableFlags
      → PageTableArena
      → Tables
      → Bool × PageTableArena × Tables
  pub unmap : Access → ℕ → Tables → Option ℕ × Tables
  -- A slot of the root table is pointed at a frame, and what it is pointed at.
  pub set_entry : Tables → ℕ → ℕ → PageTableFlags → Tables
  pub entry : Tables → ℕ → Option (ℕ × PageTableFlags)
  -- The translation of a page by entries that are present, outside the slot of the recursive entry,
  -- and none for the pages in it.
  pub translate : Tables → ℕ → Option (ℕ × PageTableFlags)
  pub translate-empty : (page : ℕ) → translate empty_tables page ≡ none
  -- With a flag that makes it present, `map_to` refuses a page that is mapped, and otherwise changes
  -- the translation of its page alone. Nothing is asked of an entry that is not present.
  pub map_to-ok :
      (access : Access) (allocate : Allocate) (page frame : ℕ) (flags : PageTableFlags)
      (arena arena' : PageTableArena) (t t' : Tables)
      → IsPage page
      → IsFrame frame
      → flags.present ≡ true
      → map_to access allocate page frame flags arena t ≡ (true, arena', t')
      → (translate t page ≡ none)
        × ((p : ℕ) → translate t' p ≡ (if p == page then some (frame, flags) else translate t p))
  pub map_to-err :
      (access : Access) (allocate : Allocate) (page frame : ℕ) (flags : PageTableFlags)
      (arena arena' : PageTableArena) (t t' : Tables)
      → IsPage page
      → IsFrame frame
      → map_to access allocate page frame flags arena t ≡ (false, arena', t')
      → (p : ℕ) → translate t' p ≡ translate t p
  -- The arena changes by calls of `allocate` only.
  pub map_to-arena :
      (P : PageTableArena → Type 0) (access : Access) (allocate : Allocate) (page frame : ℕ)
      (flags : PageTableFlags) (arena : PageTableArena) (t : Tables)
      → ((a : PageTableArena) → P a → P (allocate a).1)
      → P arena
      → P (map_to access allocate page frame flags arena t).1
  pub unmap-some :
      (access : Access) (page frame : ℕ) (t t' : Tables)
      → IsPage page
      → unmap access page t ≡ (some frame, t')
      → (flags : PageTableFlags) × (translate t page ≡ some (frame, flags))
        × ((p : ℕ) → translate t' p ≡ (if p == page then none else translate t p))
  -- A page that is mapped by a present entry can be unmapped.
  pub unmap-mapped :
      (access : Access) (page frame : ℕ) (flags : PageTableFlags) (t : Tables)
      → IsPage page
      → translate t page ≡ some (frame, flags)
      → (t' : Tables) × (unmap access page t ≡ (some frame, t'))
  pub unmap-none :
      (access : Access) (page : ℕ) (t t' : Tables)
      → IsPage page
      → unmap access page t ≡ (none, t')
      → (p : ℕ) → translate t' p ≡ translate t p
  pub translate-set_entry :
      (t : Tables) (frame page : ℕ) (flags : PageTableFlags)
      → translate (set_entry t recursive_index frame flags) page ≡ translate t page
  pub entry-set_entry :
      (t : Tables) (slot frame : ℕ) (flags : PageTableFlags)
      → entry (set_entry t slot frame flags) slot ≡ some (frame, flags)
