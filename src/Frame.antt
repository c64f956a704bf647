-- ===== src/Frame.antt =====
-- src/frame.rs: the allocator of 4 KiB physical frames.
-- A table of ranges is the list of its live entries, `ranges[..range_count]` of the fixed array.
pub mod Table
pub mod Ranges
pub mod Invariant
pub mod Allocate
pub mod Contiguous
pub mod Freed
pub mod Release
pub mod Touch
pub mod Refuse
pub mod Boot
pub mod Global
pub mod Tests
use agnost_os.Base.{
  ℕ, zero, suc, ◌+◌, ◌-◌, ◌*◌, ◌/◌, ◌%◌, ◌≤◌, ◌<◌, ◌≡◌, Bool, true, false, not, ◌&&◌, ◌||◌, Option,
  none, some, List, [], ◌∷◌, ◌++◌, ltb, leb, ◌==◌, if◌then◌else◌, Result, ok, err, length, get_or,
  set, checked, saturating,
}
use agnost_os.Memory.{MemoryRange, MemoryKind, Snapshot, MemoryMap, max_memory_ranges, page_size}

abbrev pub max_free_ranges : ℕ
max_free_ranges = max_memory_ranges

pub record FrameAddress : Type 0 where
  pub address : ℕ

-- `FrameAddress::new`.
unfoldable pub frame_address : ℕ → Option FrameAddress
frame_address address =
    if address % page_size == 0 then some (record { address = address }) else none

pub data FrameOwner : Type 0 where
  heap page_table kernel_stack kernel : FrameOwner

pub record OwnedFrame : Type 0 where
  pub frame : FrameAddress
  pub owner : FrameOwner

unfoldable pub from_reserved : ℕ → FrameOwner → Option OwnedFrame
from_reserved address owner = elim (frame_address address) [
  | none ↦ none
  | some frame ↦ some (record { frame = frame; owner = owner })
]

pub record PhysicalRange : Type 0 where
  pub start : ℕ
  pub length : ℕ

pub record OwnedPhysicalRange : Type 0 where
  pub range : PhysicalRange
  pub owner : FrameOwner

pub record FreeRange : Type 0 where
  pub start : ℕ
  pub frames : ℕ

abbrev pub free_end : FreeRange → ℕ
free_end r = saturating (r.start + saturating (r.frames * page_size))

pub record FrameStats : Type 0 where
  pub total_frames : ℕ
  pub free_frames : ℕ
  pub free_ranges : ℕ

pub data FrameError : Type 0 where
  already_initialized memory_map_unavailable out_of_memory invalid_address free_range_storage_full :
      FrameError

pub record FrameAllocator : Type 0 where
  pub ranges : List FreeRange
  pub managed : List FreeRange
  pub total_frames : ℕ
  pub free_frames : ℕ

abbrev pub is_usable : MemoryKind → Bool
is_usable MemoryKind.usable = true
is_usable _ = false

-- One turn of the loop of `FrameAllocator::new`.
unfoldable pub add_managed : FrameAllocator → MemoryRange → FrameAllocator
add_managed s range =
    if not (is_usable range.kind)
      || (length s.ranges == max_free_ranges || length s.managed == max_free_ranges)
    then s
    else let frames = range.length / page_size in
      if frames == 0 then s else record {
        ranges = s.ranges ++ record { start = range.start; frames = frames } ∷ [];
        managed = s.managed ++ record { start = range.start; frames = frames } ∷ [];
        total_frames = saturating (s.total_frames + frames);
        free_frames = saturating (s.free_frames + frames);
      }

unfoldable pub add_all : FrameAllocator → List MemoryRange → FrameAllocator
add_all s [] = s
add_all s (range ∷ ranges) = add_all (add_managed s range) ranges

unfoldable pub new : List MemoryRange → FrameAllocator
new ranges =
    add_all (record { ranges = []; managed = []; total_frames = 0; free_frames = 0 }) ranges

-- `remove_range` on the table; an index past its end is never passed.
unfoldable pub remove_range : List FreeRange → ℕ → List FreeRange
remove_range [] index = []
remove_range (r ∷ rs) zero = rs
remove_range (r ∷ rs) (suc index) = r ∷ remove_range rs index

-- The loop that moves the entries from `index` on up by one, and the write at `index`.
unfoldable pub insert_range : List FreeRange → ℕ → FreeRange → List FreeRange
insert_range rs zero value = value ∷ rs
insert_range [] (suc index) value = value ∷ []
insert_range (r ∷ rs) (suc index) value = r ∷ insert_range rs index value

abbrev pub no_range : FreeRange
no_range = record { start = 0; frames = 0 }

-- `self.ranges[index].frames -= frames`, its start moved to `start`, and the range removed when
-- nothing is left of it.
unfoldable pub take_frames : List FreeRange → ℕ → ℕ → ℕ → List FreeRange
take_frames ranges index start frames =
    let left = (get_or ranges index no_range).frames - frames in
    let ranges' = set ranges index (record { start = start; frames = left }) in
    if left == 0 then remove_range ranges' index else ranges'

unfoldable pub allocate : FrameAllocator → Result FrameError FrameAddress × FrameAllocator
allocate s =
    if length s.ranges == 0
    then (err out_of_memory, s)
    else let address = (get_or s.ranges 0 no_range).start in
      (
        ok (record { address = address }),
        record s {
          ranges = take_frames s.ranges 0 (saturating (address + page_size)) 1;
          free_frames = s.free_frames - 1;
        },
      )

-- The index of the range that `allocate_contiguous` takes: among the ranges with enough frames one
-- with the most, the last such (`max_by_key`). `best` is the index and the frames of the best so far.
unfoldable pub largest_from : List FreeRange → ℕ → ℕ → Option (ℕ × ℕ) → Option (ℕ × ℕ)
largest_from [] index frames best = best
largest_from (r ∷ rs) index frames none =
    largest_from rs (index + 1) frames
      (if leb frames r.frames then some (index, r.frames) else none)
largest_from (r ∷ rs) index frames (some (i, most)) =
    largest_from rs (index + 1) frames
      (if leb frames r.frames && leb most r.frames then some (index, r.frames) else some (i, most))

unfoldable pub allocate_contiguous :
    FrameAllocator → ℕ → Result FrameError PhysicalRange × FrameAllocator
allocate_contiguous s frames =
    if frames == 0 then (err out_of_memory, s) else elim (largest_from s.ranges 0 frames none) [
      | none ↦ (err out_of_memory, s)
      | some (index, _) ↦ elim (checked (frames * page_size)) [
        | none ↦ (err out_of_memory, s)
        | some len ↦
            let start = (get_or s.ranges index no_range).start in
            elim (checked (start + len)) [
              | none ↦ (err out_of_memory, s)
              | some next ↦ (
                ok (record { start = start; length = len }),
                record s {
                  ranges = take_frames s.ranges index next frames;
                  free_frames = s.free_frames - frames;
                },
              )
            ]
      ]
    ]

-- The maximum of the numbers of frames, 0 if there is no range.
unfoldable pub max_frames : List FreeRange → ℕ
max_frames [] = 0
max_frames (r ∷ rs) = let rest = max_frames rs in if leb rest r.frames then r.frames else rest

unfoldable pub largest_free_frames : FrameAllocator → ℕ
largest_free_frames s = max_frames s.ranges

-- Whether a frame lies in one of the ranges: the test on `managed` in `release`.
unfoldable pub manages : List FreeRange → ℕ → Bool
manages [] address = false
manages (r ∷ rs) address =
    (leb r.start address && leb (saturating (address + page_size)) (free_end r))
    || manages rs address

-- The first loop of `release`.
unfoldable pub find_index : List FreeRange → ℕ → ℕ
find_index [] address = 0
find_index (r ∷ rs) address =
    let rest = find_index rs address in if ltb r.start address then suc rest else 0

-- What `release` does with the table of free ranges once it has found the index.
unfoldable pub free_at : List FreeRange → ℕ → ℕ → Result FrameError (List FreeRange)
free_at ranges index address =
    let previous = get_or ranges (index - 1) no_range in
    let next = get_or ranges index no_range in
    let has_previous = ltb 0 index in
    let has_next = ltb index (length ranges) in
    if has_previous && ltb address (free_end previous)
    then err invalid_address
    else if has_next && ltb next.start (saturating (address + page_size))
    then err invalid_address
    else if has_previous && free_end previous == address
    then (let grown = record previous { frames = previous.frames + 1 } in
        if has_next && free_end grown == next.start
        then ok (
            remove_range
              (set ranges (index - 1) (record grown { frames = grown.frames + next.frames })) index)
        else ok (set ranges (index - 1) grown))
    else if has_next && saturating (address + page_size) == next.start
    then ok (set ranges index (record { start = address; frames = next.frames + 1 }))
    else if length ranges == max_free_ranges
    then err free_range_storage_full
    else ok (insert_range ranges index (record { start = address; frames = 1 }))

unfoldable pub release :
    FrameAllocator → FrameAddress → Result FrameError (Unit {0}) × FrameAllocator
release s frame =
    let address = frame.address in
    if not (address % page_size == 0)
    then (err invalid_address, s)
    else if not (manages s.managed address)
    then (err invalid_address, s)
    else elim (free_at s.ranges (find_index s.ranges address) address) [
      | err e ↦ (err e, s)
      | ok ranges ↦
          (ok tt, record s { ranges = ranges; free_frames = saturating (s.free_frames + 1) })
    ]

unfoldable pub stats : FrameAllocator → FrameStats
stats s = record {
  total_frames = s.total_frames;
  free_frames = s.free_frames;
  free_ranges = length s.ranges;
}
