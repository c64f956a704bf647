-- ===== src/Heap/FreeList/Tests.antt =====
-- Runs of the free list, and its theorems at them.
use agnost_os.Base.{
  ℕ, ◌+◌, ◌≡◌, ◌||◌, true, false, ◌⊎◌, refl, ◌≤◌, ◌<◌, ◌^◌, some, List, [], ◌∷◌, arith,
}
use agnost_os.Memory.Pieces.{between}
use agnost_os.Heap.{HeapRegion}
use agnost_os.Heap.FreeList.{FreeChunk, Layout, header_size, init, alloc, dealloc}
use agnost_os.Heap.FreeList.Chunks.{covers, IsApart}
use agnost_os.Heap.FreeList.Alloc.{Allocated, alloc_lem}
use agnost_os.Heap.FreeList.Dealloc.{dealloc_lem}
use agnost_os.Heap.FreeList.RoundTrip.{dealloc-alloc}
use agnost_os.Heap.FreeList.Traffic.{
  HeapOp, request, give_back, IsHeapState, perform_all, perform_all_lem, started,
}

abbrev two_chunks : List FreeChunk
two_chunks = record { start = 4104; size = 24 } ∷ record { start = 8200; size = 4096 } ∷ []

abbrev page_layout : Layout
page_layout = record { size = 100; align = 64 }

-- The first chunk is too small; the second is cut behind its padding.
run-alloc :
    alloc two_chunks page_layout
    ≡ (some 8256, record { start = 4104; size = 24 } ∷ record { start = 8356; size = 3940 } ∷ [])
unfolding alloc
run-alloc = refl

run-dealloc :
    dealloc
      (record { start = 4104; size = 24 } ∷ record { start = 4160; size = 40 } ∷ [])
      4128
      (record { size = 32; align = 8 })
    ≡ record { start = 4104; size = 96 } ∷ []
unfolding dealloc
run-dealloc = refl

alloc_lem_example : Allocated 0 100 64 two_chunks (alloc two_chunks page_layout)
alloc_lem_example = alloc_lem two_chunks page_layout (2 ^ 58) (omega arith) refl

dealloc_lem_example :
    IsApart 0 (dealloc two_chunks 4128 page_layout)
    × ((x : ℕ)
        → covers (dealloc two_chunks 4128 page_layout) x
          ≡ (between 4128 4228 x || covers two_chunks x))
unfolding covers
dealloc_lem_example =
    dealloc_lem two_chunks 4128 page_layout (omega arith) (omega arith) (omega arith)
      (λ x from to. ground arith)

dealloc-alloc_example :
    IsApart 0 (
      dealloc
        (record { start = 4104; size = 24 } ∷ record { start = 8356; size = 3940 } ∷ [])
        8256
        page_layout)
    × ((x : ℕ)
        → covers
            (dealloc
              (record { start = 4104; size = 24 } ∷ record { start = 8356; size = 3940 } ∷ [])
              8256
              page_layout)
            x
          ≡ true
        → covers two_chunks x ≡ true)
    × ((x : ℕ)
        → covers two_chunks x ≡ true
        → covers
            (dealloc
              (record { start = 4104; size = 24 } ∷ record { start = 8356; size = 3940 } ∷ [])
              8256
              page_layout)
            x
          ≡ false
        → ((x < 8256) × (8256 < x + 64)) ⊎ ((8356 ≤ x) × (x < 8356 + header_size)))
dealloc-alloc_example =
    dealloc-alloc two_chunks
      (record { start = 4104; size = 24 } ∷ record { start = 8356; size = 3940 } ∷ []) page_layout
      (2 ^ 58) 8256 (omega arith) refl run-alloc

abbrev small_region : HeapRegion
small_region = record { start = 8192; size = 4096 }

abbrev three_ops : List HeapOp
three_ops = request page_layout ∷ request (record { size = 24; align = 8 }) ∷ give_back 1 ∷ []

perform_all_lem_example :
    IsHeapState 8192 12288
      (perform_all (started (record { start = 8192; size = 4096 } ∷ [])) three_ops)
unfolding init
perform_all_lem_example =
    perform_all_lem small_region (record { start = 8192; size = 4096 } ∷ []) three_ops (omega arith)
      (omega arith) (omega arith) refl ((2 ^ 58, refl), ((2 ^ 61, refl), (tt, tt)))
