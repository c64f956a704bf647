-- ===== src/Heap/FreeList/Traffic.antt =====
-- src/allocator/mod.rs: any sequence of allocations and returns of live blocks.
use agnost_os.Base.{
  ℕ, ◌+◌, ◌*◌, ◌%◌, ◌^◌, ◌≤◌, ◌<◌, ◌≡◌, inl, inr, ◌-◌, true, none, some, List, [], ◌∷◌, arith, All,
  get_elem?, u64_max, ok, Option-cases, sym, ◌∙◌,
}
use mathlib.Core.Path.{subst}
use agnost_os.Memory.Pieces.{between}
use agnost_os.Heap.{HeapRegion}
use agnost_os.Heap.FreeList.{
  FreeChunk, Layout, header_size, header_align, block_align, init, alloc, dealloc,
}
use agnost_os.Heap.FreeList.Chunks.{covers, IsApart}
use agnost_os.Heap.FreeList.Alloc.{alloc_lem}
use agnost_os.Heap.FreeList.Blocks.{
  Block, block_end, remove, Separate, Disjoint, IsBlock, ok_inj, All-map, All-remove, All-get,
  Disjoint-remove, Disjoint-get, Separate-of_free, still_blocks,
}
use agnost_os.Heap.FreeList.Dealloc.{dealloc_lem}

pub record HeapState : Type 0 where
  pub chunks : List FreeChunk
  pub live : List Block

-- A request, or the return of the live block at an index.
pub data HeapOp : Type 0 where
  request : Layout → HeapOp
  give_back : ℕ → HeapOp

unfoldable pub perform : HeapState → HeapOp → HeapState
perform s (request layout) =
    let (found, chunks) = alloc s.chunks layout in
    elim found [
      | none ↦ record s { chunks = chunks }
      | some p ↦ record { chunks = chunks; live = record { start = p; layout = layout } ∷ s.live }
    ]
perform s (give_back i) = elim (get_elem? s.live i) [
  | none ↦ s
  | some b ↦ record { chunks = dealloc s.chunks b.start b.layout; live = remove s.live i }
]

unfoldable pub perform_all : HeapState → List HeapOp → HeapState
perform_all s [] = s
perform_all s (op ∷ ops) = perform_all (perform s op) ops

-- What Rust's `Layout` promises: an alignment that is a power of two, that is, one that divides 2^64.
abbrev pub IsRequest : HeapOp → Type 0
IsRequest (request layout) = (q : ℕ) × (q * block_align layout ≡ 2 ^ 64)
IsRequest (give_back i) = Unit

pub record IsHeapState (low high : ℕ) (s : HeapState) : Type 0 where
  pub apart : IsApart 0 s.chunks
  pub inside : (x : ℕ) → covers s.chunks x ≡ true → (low ≤ x) × (x < high)
  pub blocks : All (IsBlock low high s.chunks) s.live
  pub disjoint : Disjoint s.live

module _ (low high : ℕ) (low_pos : 0 < low) (high_bound : high ≤ u64_max) where
  request-IsHeapState :
      (s : HeapState) (layout : Layout)
      → IsRequest (request layout)
      → IsHeapState low high s
      → IsHeapState low high (perform s (request layout))
  unfolding perform
  request-IsHeapState s layout (q, whole) h = elim (alloc_lem s.chunks layout q h.apart whole) [
    | inl (same, _) ↦
        let kept : perform s (request layout) ≡ s = ground (arith, same) in
        subst (IsHeapState low high) (sym kept) h
    | inr (p, cs', found, t) ↦
        let block : Block = record { start = p; layout = layout } in
        let still : (b : Block) → IsBlock low high s.chunks b → IsBlock low high cs' b = λ b k.
          record {
            aligned = k.aligned;
            above = k.above;
            below = k.below;
            taken = λ x from to. ground (arith, k.taken x from to, t.subset x);
          } in
        let separate : (b : Block) → IsBlock low high s.chunks b → Separate block b =
          λ b k. Separate-of_free s.chunks block b t.block k.taken in
        let first = h.inside p (t.block p (omega arith) (omega arith)) in
        let end = block_end block - 1 in
        let last = h.inside end (t.block end (omega arith) (omega arith)) in
        let after : HeapState = record { chunks = cs'; live = block ∷ s.live } in
        let same : perform s (request layout) ≡ after = ground (arith, found) in
        subst (IsHeapState low high) (sym same) (record {
          apart = t.apart;
          inside = λ x covered. h.inside x (t.subset x covered);
          blocks = (
            record {
              aligned = t.aligned;
              above = omega arith;
              below = omega arith;
              taken = t.gone;
            },
            All-map (IsBlock low high s.chunks) (IsBlock low high cs') still s.live h.blocks,
          );
          disjoint = (
            All-map (IsBlock low high s.chunks) (Separate block) separate s.live h.blocks,
            h.disjoint,
          );
        })
  ]

  give_back-IsHeapState :
      (s : HeapState) (i : ℕ)
      → IsHeapState low high s
      → IsHeapState low high (perform s (give_back i))
  unfolding perform
  give_back-IsHeapState s i h = elim (Option-cases (get_elem? s.live i)) [
    | inl nothing ↦ rw (nothing, perform) h
    | inr (b, found) ↦
        let block = All-get (IsBlock low high s.chunks) s.live i b h.blocks found in
        let separate = Disjoint-get s.live i b h.disjoint found in
        let rest = All-remove (IsBlock low high s.chunks) s.live i h.blocks in
        let (apart, free) =
          dealloc_lem s.chunks b.start b.layout h.apart (omega (arith, block.above))
            (omega (arith, block.below)) block.taken in
        rw (found, perform)
          (record {
            apart = apart;
            inside = λ x covered. ground (arith, free x, h.inside x, block.above, block.below);
            blocks =
                still_blocks low high s.chunks (dealloc s.chunks b.start b.layout) b free
                  (remove s.live i) rest separate;
            disjoint = Disjoint-remove s.live i h.disjoint;
          })
  ]

  perform_all-IsHeapState :
      (s : HeapState) (ops : List HeapOp)
      → All IsRequest ops
      → IsHeapState low high s
      → IsHeapState low high (perform_all s ops)
  unfolding perform_all
  perform_all-IsHeapState s [] rs h = h
  perform_all-IsHeapState s (request l ∷ ops) (r, rs) h =
      perform_all-IsHeapState (perform s (request l)) ops rs (request-IsHeapState s l r h)
  perform_all-IsHeapState s (give_back i ∷ ops) (r, rs) h =
      perform_all-IsHeapState (perform s (give_back i)) ops rs (give_back-IsHeapState s i h)

-- The state of the heap behind `init`: no block is handed out.
abbrev pub started : List FreeChunk → HeapState
started chunks = record { chunks = chunks; live = [] }

-- On a heap region behind page 0, aligned and large enough for a header, `init` succeeds with exactly
-- the region free.
pub init_lem :
    (region : HeapRegion)
    → 0 < region.start
    → region.start % header_align ≡ 0
    → header_size ≤ region.size
    → region.start + region.size ≤ u64_max
    → (chunks : List FreeChunk) × (init region ≡ ok chunks)
      × IsApart 0 chunks
      × ((x : ℕ) → covers chunks x ≡ between region.start (region.start + region.size) x)
unfolding init covers
init_lem region pos aligned holds bound = (
  record { start = region.start; size = region.size } ∷ [],
  ground arith,
  (pos, holds, bound, tt),
  λ x. ground arith,
)

-- The blocks of the heap stay apart. From a region that is not at address 0, ends below 2^64 and has
-- been started as the heap, whatever is requested with an alignment that divides 2^64 and whichever
-- live blocks are returned, in any order: the live blocks are aligned, lie in the region, share no
-- address with one another and none with the free list; and the free list stays in order and in the
-- region.
pub perform_all_lem :
    (region : HeapRegion) (chunks : List FreeChunk) (ops : List HeapOp)
    → 0 < region.start
    → header_size ≤ region.size
    → region.start + region.size ≤ u64_max
    → init region ≡ ok chunks
    → All IsRequest ops
    → IsHeapState region.start (region.start + region.size) (perform_all (started chunks) ops)
unfolding init
perform_all_lem region chunks ops pos holds bound begun requests =
    let aligned : region.start % header_align ≡ 0 = ground (arith, begun) in
    let (cs, same, apart, free) = init_lem region pos aligned holds bound in
    let e = ok_inj (sym same ∙ begun) in
    perform_all-IsHeapState region.start (region.start + region.size) pos bound (started chunks) ops
      requests
      (subst (λ l. IsHeapState region.start (region.start + region.size) (started l)) e
        (record {
          apart = apart;
          inside = λ x covered. ground (arith, free x);
          blocks = tt;
          disjoint = tt;
        }))
