-- ===== src/Heap/FreeList/RoundTrip.antt =====
-- src/allocator/mod.rs: an allocation whose block is returned at once.
use agnost_os.Base.{
  ℕ, ◌+◌, ◌-◌, ◌*◌, ◌^◌, ◌≤◌, ◌<◌, ◌≡◌, sym, ◌∙◌, ◌⊎◌, inl, inr, true, false, some, List, [], ◌∷◌,
  arith, u64_max, Bool-cases,
}
use mathlib.Core.Path.{subst}
use agnost_os.Heap.FreeList.{
  FreeChunk, Layout, header_size, block_size, block_align, alloc, dealloc,
}
use agnost_os.Heap.FreeList.Chunks.{chunk_end, covers, IsApart}
use agnost_os.Heap.FreeList.Alloc.{IsTaken, alloc_lem}
use agnost_os.Heap.FreeList.Dealloc.{dealloc_lem}

covers-bound :
    (low : ℕ) (cs : List FreeChunk) (x : ℕ) → IsApart low cs → covers cs x ≡ true → x < u64_max
unfolding covers
covers-bound low [] x h member = cc
covers-bound low (c ∷ cs) x (a, b, e, h) member = elim (Bool-cases (covers cs x)) [
  | inl later ↦ covers-bound (chunk_end c) cs x h later
  | inr here ↦ ground arith
]

alloc-IsTaken :
    (cs cs' : List FreeChunk) (layout : Layout) (q p : ℕ)
    → IsApart 0 cs
    → q * block_align layout ≡ 2 ^ 64
    → alloc cs layout ≡ (some p, cs')
    → IsTaken 0 (block_size layout) (block_align layout) cs cs' p
alloc-IsTaken cs cs' layout q p h whole found = elim (alloc_lem cs layout q h whole) [
  | inl (same, _) ↦ let clash = sym same ∙ found in cc
  | inr (p', cs'', found', t) ↦
      let e : p' ≡ p = let both = sym found' ∙ found in cc in
      let e' : cs'' ≡ cs' = let both = sym found' ∙ found in cc in
      subst (IsTaken 0 (block_size layout) (block_align layout) cs cs') e
        (subst (λ l. IsTaken 0 (block_size layout) (block_align layout) cs l p') e' t)
]

-- On a free list in order with a gap between any two chunks, and for an alignment that divides
-- 2^64: a block that is allocated and returned at once leaves the free list in order, with nothing
-- free that was not free before. What is lost lies outside the block: less than the alignment
-- before it, or less than a header behind it.
pub dealloc-alloc :
    (cs cs' : List FreeChunk) (layout : Layout) (q p : ℕ)
    → IsApart 0 cs
    → q * block_align layout ≡ 2 ^ 64
    → alloc cs layout ≡ (some p, cs')
    → IsApart 0 (dealloc cs' p layout)
      × ((x : ℕ) → covers (dealloc cs' p layout) x ≡ true → covers cs x ≡ true)
      × ((x : ℕ)
          → covers cs x ≡ true
          → covers (dealloc cs' p layout) x ≡ false
          → ((x < p) × (p < x + block_align layout))
            ⊎ ((p + block_size layout ≤ x) × (x < p + block_size layout + header_size)))
dealloc-alloc cs cs' layout q p h whole found =
    let t = alloc-IsTaken cs cs' layout q p h whole found in
    let end = p + block_size layout - 1 in
    let bound = covers-bound 0 cs end h (t.block end (omega arith) (omega arith)) in
    let (apart, free) = dealloc_lem cs' p layout t.apart t.above (omega arith) t.gone in
    (
      apart,
      λ x. ground (arith, free x, t.subset x, t.block x),
      λ x before lost. ground (arith, free x, t.near x, t.block x),
    )
