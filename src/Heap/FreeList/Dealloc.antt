-- ===== src/Heap/FreeList/Dealloc.antt =====
-- src/allocator/mod.rs: what returning a block does to the free list.
use agnost_os.Base.{
  ℕ, ◌+◌, ◌≤◌, ◌<◌, ◌≡◌, ◌≢◌, ◌∙◌, sym, refl, inl, inr, ◌||◌, List, [], ◌∷◌, arith, ltb, ◌==◌,
  Bool-cases, tests, u64_max, ==→eq, ==→ne,
}
use mathlib.Core.Path.{subst}
use agnost_os.Memory.Pieces.{between}
use agnost_os.Heap.FreeList.{
  FreeChunk, Layout, header_size, block_size, join, join_next, insert, join_previous_loop,
  join_previous, dealloc,
}
use agnost_os.Heap.FreeList.Chunks.{chunk_end, covers, IsApart, IsApart-lower, IsBlockTaken}

-- As `IsApart`, but the chunk at `p` may begin where the one before it ends.
abbrev IsNear : ℕ → ℕ → List FreeChunk → Type 0
IsNear p low [] = Unit
IsNear p low (c ∷ cs) =
    (low ≤ c.start)
    × (c.start ≢ p → low < c.start)
    × (header_size ≤ c.size)
    × (chunk_end c ≤ u64_max)
    × IsNear p (chunk_end c) cs

IsApart-IsNear : (p low : ℕ) (cs : List FreeChunk) → IsApart low cs → IsNear p low cs
IsApart-IsNear p low [] h = tt
IsApart-IsNear p low (c ∷ cs) (a, b, e, h) =
    (omega arith, λ _. a, b, e, IsApart-IsNear p (chunk_end c) cs h)

-- Behind `p` no chunk is excepted.
IsNear-IsApart : (p low : ℕ) (cs : List FreeChunk) → p < low → IsNear p low cs → IsApart low cs
IsNear-IsApart p low [] lt h = tt
IsNear-IsApart p low (c ∷ cs) lt (a, strict, b, e, h) =
    (strict (omega arith), b, e, IsNear-IsApart p (chunk_end c) cs (omega arith) h)

covers-join :
    (c d : FreeChunk) (rest : List FreeChunk) (x : ℕ)
    → covers (join c d rest) x ≡ covers (c ∷ d ∷ rest) x
unfolding covers join
covers-join c d rest x = ground arith

module _ (c d : FreeChunk) (rest : List FreeChunk) (bound : chunk_end d ≤ u64_max) where
  join-touch :
      chunk_end c ≡ d.start
      → join c d rest ≡ record { start = c.start; size = c.size + d.size } ∷ rest
  unfolding join
  join-touch touch = ground arith

  join-gap : chunk_end c ≢ d.start → join c d rest ≡ c ∷ d ∷ rest
  unfolding join
  join-gap gap = ground arith

  -- What holds of both outcomes holds of the joined list.
  join_cases :
      (P : List FreeChunk → Type 0)
      → (chunk_end c ≡ d.start → P (record { start = c.start; size = c.size + d.size } ∷ rest))
      → (chunk_end c ≢ d.start → P (c ∷ d ∷ rest))
      → P (join c d rest)
  join_cases P touch gap = elim (Bool-cases (chunk_end c == d.start)) [
    | inl e ↦ let eq = ==→eq (chunk_end c) d.start e in subst P (sym (join-touch eq)) (touch eq)
    | inr e ↦ let ne = ==→ne (chunk_end c) d.start e in subst P (sym (join-gap ne)) (gap ne)
  ]

join-IsApart :
    (low : ℕ) (c d : FreeChunk) (rest : List FreeChunk)
    → low < c.start
    → header_size ≤ c.size
    → chunk_end c ≤ d.start
    → header_size ≤ d.size
    → chunk_end d ≤ u64_max
    → IsApart (chunk_end d) rest
    → IsApart low (join c d rest)
join-IsApart low c d rest a b le b' e h =
    join_cases c d rest e (IsApart low)
      (λ touch. (
        a,
        omega arith,
        omega arith,
        IsApart-lower (chunk_end d) (c.start + (c.size + d.size)) rest (omega arith) h,
      ))
      (λ gap. (a, b, omega arith, (omega arith, b', e, h)))

module _ (c : FreeChunk) (holds : header_size ≤ c.size) (bound : chunk_end c ≤ u64_max) where
  insert-IsNear :
      (low : ℕ) (cs : List FreeChunk)
      → IsApart low cs
      → low ≤ c.start
      → IsBlockTaken cs c.start c.size
      → IsNear c.start low (insert c cs)
  unfolding insert join_next covers
  insert-IsNear low [] h le taken = (le, λ ne. absurd (ne refl), holds, bound, tt)
  insert-IsNear low (d ∷ ds) (a, b, e, h) le taken = elim (Bool-cases (ltb d.start c.start)) [
    | inl early ↦
        let ends : chunk_end d ≤ c.start = ground (arith, taken c.start) in
        rw early (
          omega arith,
          λ _. a,
          b,
          e,
          insert-IsNear (chunk_end d) ds h ends (λ x from to. ground (arith, taken x)),
        )
    | inr late ↦
        let ends : chunk_end c ≤ d.start = ground (arith, taken d.start) in
        rw late (
          join_cases c d ds e (IsNear c.start low)
            (λ touch. (
              le,
              λ ne. absurd (ne refl),
              omega arith,
              omega arith,
              IsApart-IsNear c.start (c.start + (c.size + d.size)) ds
                  (IsApart-lower (chunk_end d) (c.start + (c.size + d.size)) ds (omega arith) h),
            ))
            (λ gap. (
              le,
              λ ne. absurd (ne refl),
              holds,
              bound,
              (omega arith, λ _. omega arith, b, e, IsApart-IsNear c.start (chunk_end d) ds h),
            )))
  ]

  covers-insert :
      (cs : List FreeChunk) (x : ℕ)
      → covers (insert c cs) x ≡ (between c.start (chunk_end c) x || covers cs x)
  unfolding insert join_next covers
  covers-insert [] x = refl
  covers-insert (d ∷ ds) x = elim (Bool-cases (ltb d.start c.start)) [
    | inl early ↦ rw early (ground (arith, covers-insert ds x))
    | inr late ↦ rw late (covers-join c d ds x)
  ]

covers-join_previous_loop :
    (p : ℕ) (prev : FreeChunk) (cs : List FreeChunk) (x : ℕ)
    → covers (join_previous_loop p prev cs) x ≡ covers (prev ∷ cs) x
unfolding join_previous_loop covers
covers-join_previous_loop p prev [] x = refl
covers-join_previous_loop p prev (c ∷ cs) x = elim (Bool-cases (c.start == p)) [
  | inl here ↦ rw here (covers-join prev c cs x)
  | inr on ↦ rw on (ground (arith, covers-join_previous_loop p c cs x))
]

join_previous_loop-IsApart :
    (p low : ℕ) (prev : FreeChunk) (cs : List FreeChunk)
    → low < prev.start
    → header_size ≤ prev.size
    → chunk_end prev ≤ u64_max
    → IsNear p (chunk_end prev) cs
    → IsApart low (join_previous_loop p prev cs)
unfolding join_previous_loop
join_previous_loop-IsApart p low prev [] a b e h = (a, b, e, tt)
join_previous_loop-IsApart p low prev (c ∷ cs) a b e (le, strict, b', e', h) =
    elim (Bool-cases (c.start == p)) [
      | inl here ↦ rw here (
          join-IsApart low prev c cs a b le b' e'
            (IsNear-IsApart p (chunk_end c) cs (omega tests) h))
      | inr on ↦ rw on (
        a,
        b,
        e,
        join_previous_loop-IsApart p (chunk_end prev) c cs (strict (==→ne c.start p on)) b' e' h,
      )
    ]

covers-join_previous :
    (p : ℕ) (cs : List FreeChunk) (x : ℕ) → covers (join_previous p cs) x ≡ covers cs x
unfolding join_previous
covers-join_previous p [] x = refl
covers-join_previous p (c ∷ cs) x = elim (Bool-cases (c.start == p)) [
  | inl here ↦ rw here
  | inr on ↦ rw on (covers-join_previous_loop p c cs x)
]

join_previous-IsApart :
    (p : ℕ) (cs : List FreeChunk) → 0 < p → IsNear p 0 cs → IsApart 0 (join_previous p cs)
unfolding join_previous
join_previous-IsApart p [] pos h = tt
join_previous-IsApart p (c ∷ cs) pos (le, strict, b, e, h) = elim (Bool-cases (c.start == p)) [
  | inl here ↦ rw here (omega tests, b, e, IsNear-IsApart p (chunk_end c) cs (omega tests) h)
  | inr on ↦ rw on (join_previous_loop-IsApart p 0 c cs (strict (==→ne c.start p on)) b e h)
]

-- On a free list in order with a gap between any two chunks: returning a block that is not at
-- address 0, ends below 2^64 and of which no address is free makes exactly its addresses free
-- besides those that were, and keeps the free list in order with gaps: whatever the block touches,
-- it has become one chunk with.
pub dealloc_lem :
    (cs : List FreeChunk) (p : ℕ) (layout : Layout)
    → IsApart 0 cs
    → 0 < p
    → p + block_size layout ≤ u64_max
    → IsBlockTaken cs p (block_size layout)
    → IsApart 0 (dealloc cs p layout)
      × ((x : ℕ)
          → covers (dealloc cs p layout) x ≡ (between p (p + block_size layout) x || covers cs x))
unfolding dealloc
dealloc_lem cs p layout h pos bound taken =
    let block : FreeChunk = record { start = p; size = block_size layout } in
    (
      join_previous-IsApart p (insert block cs) pos
          (insert-IsNear block (omega arith) bound 0 cs h (omega arith) taken),
      λ x.
          covers-join_previous p (insert block cs) x ∙ covers-insert block (omega arith) bound cs x,
    )
