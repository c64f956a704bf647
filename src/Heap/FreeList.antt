-- ===== src/Heap/FreeList.antt =====
-- src/allocator/mod.rs: the free list of `AgnostOSAllocator`, as the chain of its headers from the
-- head on: where each chunk begins and how long it is.
pub mod Chunks
pub mod Align
pub mod Alloc
pub mod Dealloc
pub mod Blocks
pub mod RoundTrip
pub mod Traffic
pub mod Tests
use agnost_os.Base.{
  ℕ, ◌+◌, ◌-◌, ◌%◌, max, Option, none, some, List, [], ◌∷◌, ltb, leb, ◌==◌, if◌then◌else◌, not,
  Result, ok, err, checked,
}
use agnost_os.Heap.{HeapRegion, HeapError, too_small, misaligned}

-- The header: a size and a pointer.
abbrev pub header_size : ℕ
header_size = 16

abbrev pub header_align : ℕ
header_align = 8

pub record FreeChunk : Type 0 where
  pub start : ℕ
  pub size : ℕ

-- `core::alloc::Layout`.
pub record Layout : Type 0 where
  pub size : ℕ
  pub align : ℕ

-- The size and the alignment that are allocated: no less than a header's.
abbrev pub block_size : Layout → ℕ
block_size layout = max layout.size header_size

abbrev pub block_align : Layout → ℕ
block_align layout = max layout.align header_align

-- `AgnostOSAllocator::init`. A chunk at address 0 would be the null pointer, which ends the list.
unfoldable pub init : HeapRegion → Result HeapError (List FreeChunk)
init region =
    if ltb region.size header_size
    then err too_small
    else if not (region.start % header_align == 0)
    then err misaligned
    else if region.start == 0
    then ok []
    else ok (record { start = region.start; size = region.size } ∷ [])

-- Where a block is taken from a chunk: its address, its end and the chunk's end. For an alignment
-- that is a power of two, `n & !(align - 1)` is `n - n % align`.
unfoldable pub place : ℕ → ℕ → FreeChunk → Option (ℕ × ℕ × ℕ)
place size align chunk = elim (checked (chunk.start + (align - 1))) [
  | none ↦ none
  | some unmasked ↦
      let aligned = unmasked - unmasked % align in
      elim (checked (aligned + size)) [
        | none ↦ none
        | some end ↦ elim (checked (chunk.start + chunk.size)) [
          | none ↦ none
          | some chunk_end ↦ if leb end chunk_end then some (aligned, end, chunk_end) else none
        ]
      ]
]

-- What is put back of a chunk behind the block.
unfoldable pub put_back : ℕ → ℕ → List FreeChunk → List FreeChunk
put_back end chunk_end rest =
    if leb header_size (chunk_end - end)
    then record { start = end; size = chunk_end - end } ∷ rest
    else rest

unfoldable pub alloc_loop : ℕ → ℕ → List FreeChunk → Option ℕ × List FreeChunk
unfolding place put_back
alloc_loop size align [] = (none, [])
alloc_loop size align (chunk ∷ rest) =
    let (found, rest') = alloc_loop size align rest in
    elim (place size align chunk) [
      | some (aligned, end, chunk_end) ↦ (some aligned, put_back end chunk_end rest)
      | none ↦ (found, chunk ∷ rest')
    ]

unfoldable pub alloc : List FreeChunk → Layout → Option ℕ × List FreeChunk
unfolding alloc_loop
alloc chunks layout = alloc_loop (block_size layout) (block_align layout) chunks

-- Two neighbours become one chunk if the first ends where the second begins.
unfoldable pub join : FreeChunk → FreeChunk → List FreeChunk → List FreeChunk
join first second rest = elim (checked (first.start + first.size)) [
  | none ↦ first ∷ second ∷ rest
  | some end ↦
      if end == second.start
      then elim (checked (first.size + second.size)) [
        | none ↦ first ∷ second ∷ rest
        | some merged_size ↦ record { start = first.start; size = merged_size } ∷ rest
      ]
      else first ∷ second ∷ rest
]

unfoldable pub join_next : FreeChunk → List FreeChunk → List FreeChunk
unfolding join
join_next chunk [] = chunk ∷ []
join_next chunk (next ∷ rest) = join chunk next rest

-- The chunk is put in front of the first one that does not begin before it.
unfoldable pub insert : FreeChunk → List FreeChunk → List FreeChunk
unfolding join_next
insert chunk [] = join_next chunk []
insert chunk (other ∷ rest) =
    if ltb other.start chunk.start
    then other ∷ insert chunk rest
    else join_next chunk (other ∷ rest)

-- The chunk before the one at `pointer` is joined with it.
unfoldable pub join_previous_loop : ℕ → FreeChunk → List FreeChunk → List FreeChunk
unfolding join
join_previous_loop pointer previous [] = previous ∷ []
join_previous_loop pointer previous (current ∷ rest) =
    if current.start == pointer
    then join previous current rest
    else previous ∷ join_previous_loop pointer current rest

unfoldable pub join_previous : ℕ → List FreeChunk → List FreeChunk
unfolding join_previous_loop
join_previous pointer [] = []
join_previous pointer (current ∷ rest) =
    if current.start == pointer then current ∷ rest else join_previous_loop pointer current rest

unfoldable pub dealloc : List FreeChunk → ℕ → Layout → List FreeChunk
unfolding insert join_previous
dealloc chunks pointer layout =
    join_previous pointer (insert (record { start = pointer; size = block_size layout }) chunks)
