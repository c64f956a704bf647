-- ===== src/Heap/FreeList/Chunks.antt =====
-- The free addresses of the heap, and lists of chunks that are in order and apart.
use agnost_os.Base.{
  ℕ, ◌+◌, ◌≤◌, ◌<◌, ◌≡◌, refl, Bool, true, false, ◌||◌, List, [], ◌∷◌, arith, u64_max,
}
use agnost_os.Memory.Pieces.{between}
use agnost_os.Heap.FreeList.{FreeChunk, header_size}

abbrev pub chunk_end : FreeChunk → ℕ
chunk_end chunk = chunk.start + chunk.size

unfoldable pub covers : List FreeChunk → ℕ → Bool
covers [] x = false
covers (c ∷ cs) x = between c.start (chunk_end c) x || covers cs x

-- The chunks hold a header, lie behind `low`, in order and with a gap between any two, and end
-- within the address space. With `low` 0 none is at the null address; a gap between any two says
-- that no two could be joined.
abbrev pub IsApart : ℕ → List FreeChunk → Type 0
IsApart low [] = Unit
IsApart low (c ∷ cs) =
    (low < c.start) × (header_size ≤ c.size) × (chunk_end c ≤ u64_max) × IsApart (chunk_end c) cs

pub IsApart-lower :
    (low low' : ℕ) (cs : List FreeChunk) → low' ≤ low → IsApart low cs → IsApart low' cs
IsApart-lower low low' [] le h = tt
IsApart-lower low low' (c ∷ cs) le (a, b, e, h) = (omega arith, b, e, h)

pub covers-below :
    (low : ℕ) (cs : List FreeChunk) (x : ℕ) → IsApart low cs → x ≤ low → covers cs x ≡ false
unfolding covers
covers-below low [] x h le = refl
covers-below low (c ∷ cs) x (a, b, e, h) le =
    let rest = covers-below (chunk_end c) cs x h (omega arith) in ground (arith, rest)

-- A block of addresses.
abbrev pub IsBlockFree : List FreeChunk → ℕ → ℕ → Type 0
IsBlockFree cs p size = (x : ℕ) → p ≤ x → x < p + size → covers cs x ≡ true

abbrev pub IsBlockTaken : List FreeChunk → ℕ → ℕ → Type 0
IsBlockTaken cs p size = (x : ℕ) → p ≤ x → x < p + size → covers cs x ≡ false
