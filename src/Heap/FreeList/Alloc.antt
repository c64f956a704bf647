-- ===== src/Heap/FreeList/Alloc.antt =====
-- src/allocator/mod.rs: what an allocation takes from the free list, and when it finds nothing.
use agnost_os.Base.{
  ℕ, ◌+◌, ◌-◌, ◌*◌, ◌%◌, ◌^◌, ◌≤◌, ◌<◌, ◌≡◌, ◌≢◌, refl, inl, inr, ◌⊎◌, true, false, Option, none,
  some, List, [], ◌∷◌, arith, ltb, leb, Option-cases, Bool-cases, tests, u64_max,
}
use agnost_os.Heap.FreeList.{
  FreeChunk, Layout, header_size, block_size, block_align, place, put_back, alloc_loop, alloc,
}
use agnost_os.Heap.FreeList.Chunks.{
  chunk_end, covers, IsApart, IsApart-lower, covers-below, IsBlockFree,
}
use agnost_os.Heap.FreeList.Align.{round_down-mod, round_up-least, next_multiple}

-- A block that fits a chunk lies in it at a multiple of the alignment, less than the alignment
-- behind its start.
record IsPlaced (size align : ℕ) (c : FreeChunk) (p e ce : ℕ) : Type 0 where
  aligned : p % align ≡ 0
  from : c.start ≤ p
  near : p < c.start + align
  end : e ≡ p + size
  fits : e ≤ ce
  whole : ce ≡ chunk_end c

module _ (size align : ℕ) (positive : 0 < align) (c : FreeChunk) where
  place-some : (p e ce : ℕ) → place size align c ≡ some (p, e, ce) → IsPlaced size align c p e ce
  unfolding place
  place-some p e ce h =
      let z = round_down-mod (c.start + (align - 1)) align positive in ground (arith, z)

  place-none :
      (p q : ℕ)
      → q * align ≡ 2 ^ 64
      → p % align ≡ 0
      → c.start ≤ p
      → p + size ≤ chunk_end c
      → chunk_end c ≤ u64_max
      → 0 < size
      → place size align c ≢ none
  unfolding place
  place-none p q whole z le fits bound pos h =
      let m = next_multiple p align q positive whole z (omega arith) in
      let least = round_up-least c.start p align positive le z in ground (arith, m, least)

-- What an allocation has done to the free list: the block was free, and now none of it is; nothing
-- else becomes free; and what is free no more lies in the block, before it by less than the
-- alignment, or behind it by less than a header.
pub record IsTaken (low size align : ℕ) (cs cs' : List FreeChunk) (p : ℕ) : Type 0 where
  pub above : low < p
  pub aligned : p % align ≡ 0
  pub block : IsBlockFree cs p size
  pub apart : IsApart low cs'
  pub subset : (x : ℕ) → covers cs' x ≡ true → covers cs x ≡ true
  pub gone : (x : ℕ) → p ≤ x → x < p + size → covers cs' x ≡ false
  pub near :
      (x : ℕ)
      → covers cs x ≡ true
      → covers cs' x ≡ false
      → (p < x + align) × (x < p + size + header_size)

module _ (low size align : ℕ) (positive : 0 < align) where
  put_back-IsTaken :
      (c : FreeChunk) (cs : List FreeChunk) (p e ce : ℕ)
      → IsPlaced size align c p e ce
      → 0 < size
      → IsApart low (c ∷ cs)
      → IsTaken low size align (c ∷ cs) (put_back e ce cs) p
  unfolding put_back covers
  put_back-IsTaken c cs p e ce placed pos (a, b, bound, h) = record {
    above = omega arith;
    aligned = placed.aligned;
    block = λ x le lt. ground arith;
    apart = elim (Bool-cases (leb header_size (ce - e))) [
      | inl big ↦ rw big (
        omega arith,
        omega tests,
        omega arith,
        IsApart-lower (chunk_end c) (e + (ce - e)) cs (omega arith) h,
      )
      | inr small ↦ rw small (IsApart-lower (chunk_end c) low cs (omega arith) h)
    ];
    subset = λ x. ground arith;
    gone =
        λ x le lt. let out = covers-below (chunk_end c) cs x h (omega arith) in ground (arith, out);
    near = λ x yes no. ground arith;
  }

  skip-IsTaken :
      (c : FreeChunk) (cs cs' : List FreeChunk) (p : ℕ)
      → IsApart low (c ∷ cs)
      → IsTaken (chunk_end c) size align cs cs' p
      → IsTaken low size align (c ∷ cs) (c ∷ cs') p
  unfolding covers
  skip-IsTaken c cs cs' p (a, b, bound, h) t = record {
    above = omega (arith, t.above);
    aligned = t.aligned;
    block = λ x le lt. ground (arith, t.block x le lt);
    apart = (a, b, bound, t.apart);
    subset = λ x. ground (arith, t.subset x);
    gone = λ x le lt. ground (arith, t.gone x le lt, t.above);
    near = λ x before after. ground (arith, t.near x);
  }

-- A block of free addresses lies within one chunk.
block-in_chunk :
    (low size p : ℕ) (c : FreeChunk) (cs : List FreeChunk)
    → 0 < size
    → IsApart low (c ∷ cs)
    → IsBlockFree (c ∷ cs) p size
    → ((c.start ≤ p) × (p + size ≤ chunk_end c)) ⊎ IsBlockFree cs p size
unfolding covers
block-in_chunk low size p c cs pos (a, b, bound, h) free = elim (Bool-cases (ltb p (chunk_end c))) [
  | inl inside ↦
      let at_p = covers-below (chunk_end c) cs p h (omega tests) in
      let at_end = covers-below (chunk_end c) cs (chunk_end c) h (omega arith) in
      inl (ground (arith, at_p, free p), ground (arith, at_end, free (chunk_end c)))
  | inr behind ↦ inr (λ x le lt. ground (arith, free x))
]

-- The outcome of an allocation: nothing fits and nothing changes, or a block is taken.
abbrev pub Allocated : ℕ → ℕ → ℕ → List FreeChunk → Option ℕ × List FreeChunk → Type 0
Allocated low size align cs out =
    ((out ≡ (none, cs)) × ((p : ℕ) → p % align ≡ 0 → ¬ IsBlockFree cs p size))
    ⊎ ((p : ℕ) × (cs' : List FreeChunk) × (out ≡ (some p, cs')) × IsTaken low size align cs cs' p)

alloc_loop_lem :
    (low size align q : ℕ) (cs : List FreeChunk)
    → 0 < size
    → 0 < align
    → q * align ≡ 2 ^ 64
    → IsApart low cs
    → Allocated low size align cs (alloc_loop size align cs)
unfolding alloc_loop covers
alloc_loop_lem low size align q [] pos positive whole h =
    inl (refl, λ p z free. let no_block = free p (omega arith) (omega arith) in cc)
alloc_loop_lem low size align q (c ∷ cs) pos positive whole (a, b, bound, h) =
    elim (Option-cases (place size align c)) [
      | inr ((p, e, ce), fit) ↦ inr (
        p,
        put_back e ce cs,
        ground (arith, fit),
        put_back-IsTaken low size align positive c cs p e ce
            (place-some size align positive c p e ce fit) pos (a, b, bound, h),
      )
      | inl miss ↦ elim (alloc_loop_lem (chunk_end c) size align q cs pos positive whole h) [
        | inl (same, unfit) ↦ inl (
          ground (arith, miss, same),
          λ p z free. elim (block-in_chunk low size p c cs pos (a, b, bound, h) free) [
            | inl (le, fits) ↦ place-none size align positive c p q whole z le fits bound pos miss
            | inr rest ↦ unfit p z rest
          ],
        )
        | inr (p, cs', found, taken) ↦ inr (
          p,
          c ∷ cs',
          ground (arith, miss, found),
          skip-IsTaken low size align positive c cs cs' p (a, b, bound, h) taken,
        )
      ]
    ]

-- On a free list in order with a gap between any two chunks, and for an alignment that divides
-- 2^64: an allocation finds no block exactly when no multiple of the alignment is the start of one
-- that is free, and then changes nothing. Otherwise it returns a free block, aligned and not null;
-- the free list stays in order with gaps, loses the block, and loses nothing else but addresses
-- less than the alignment before it and less than a header behind it.
pub alloc_lem :
    (cs : List FreeChunk) (layout : Layout) (q : ℕ)
    → IsApart 0 cs
    → q * block_align layout ≡ 2 ^ 64
    → Allocated 0 (block_size layout) (block_align layout) cs (alloc cs layout)
unfolding alloc
alloc_lem cs layout q h whole =
    alloc_loop_lem 0 (block_size layout) (block_align layout) q cs (omega arith) (omega arith) whole
      h
