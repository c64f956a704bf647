-- ===== src/Heap/Setup.antt =====
-- `initialize_heap`: the heap is memory that nobody else has.
use agnost_os.Base.{
  ℕ, ◌+◌, ◌*◌, ◌<◌, ◌≡◌, ◌≢◌, refl, ◌∙◌, true, false, Option, none, some, [], ◌∷◌, arith, ◌==◌,
  Bool-cases, inl, inr, ◌⊎◌, Result, ok, err, All,
}
use agnost_os.Memory.{
  MemoryMap, MemoryKind, MemoryMapError, Snapshot, kind_at, contains, reserve, reserve_range,
  page_size, kernel,
}
use agnost_os.Memory.Pieces.{between, IsRange}
use agnost_os.Memory.Reserve.{IsMap, reserved_kind, reserve_range_lem}
use agnost_os.Frame.{
  FrameAllocator, PhysicalRange, allocate_contiguous, largest_free_frames, new, heap,
}
use agnost_os.Frame.Global.{GlobalAllocator, initialize, global_largest, allocate_contiguous_owned}
use agnost_os.Frame.Ranges.{covers}
use agnost_os.Frame.Invariant.{IsAllocator}
use agnost_os.Frame.Contiguous.{allocate_contiguous_lem}
use agnost_os.Frame.Boot.{IsOrdered, usable_in, new_lem}
use agnost_os.Heap.{HeapRegion, take_heap, no_conventional_memory, memory_reservation_failed}

-- A usable address is described by the map.
pub usable_in-kind_at :
    (s : Snapshot) (x : ℕ) → All IsRange s → usable_in s x ≡ true → kind_at s x ≢ none
unfolding usable_in kind_at
usable_in-kind_at [] x v h = cc
usable_in-kind_at (r ∷ rs) x (v, vs) h = elim (Bool-cases (contains r x)) [
  | inl here ↦ rw (kind_at, here) (λ e. cc)
  | inr other ↦
      let h' : usable_in rs x ≡ true = ground arith in
      rw (kind_at, other) (usable_in-kind_at rs x vs h')
]

-- The outcome of the choice of the heap, from a map `s` and no frame allocator yet.
pub record IsHeap (s : Snapshot) (region : HeapRegion) (m : MemoryMap) (f : GlobalAllocator)
    : Type 0 where
  pub map : Snapshot
  pub frames : FrameAllocator
  pub map-eq : m ≡ some map
  pub frames-eq : f ≡ some frames
  pub map-IsMap : IsMap map
  pub frames-IsAllocator : IsAllocator frames
  pub nonempty : 0 < region.size
  pub was_usable :
      (x : ℕ) → between region.start (region.start + region.size) x ≡ true → usable_in s x ≡ true
  pub now_kernel :
      (x : ℕ)
      → between region.start (region.start + region.size) x ≡ true
      → kind_at map x ≡ some kernel
  pub not_free :
      (x : ℕ)
      → between region.start (region.start + region.size) x ≡ true
      → covers frames.ranges x ≡ false

kernel-kind :
    (start len x : ℕ) (k : Option MemoryKind)
    → between start (start + len) x ≡ true
    → k ≢ none
    → reserved_kind start (start + len) kernel x k ≡ some kernel
kernel-kind start len x none h n = absurd (n refl)
kernel-kind start len x (some k) h n = rw h refl

owned-ok :
    (s s' : FrameAllocator) (n : ℕ) (range : PhysicalRange)
    → allocate_contiguous s n ≡ (ok range, s')
    → allocate_contiguous_owned (some s) n heap
      ≡ (ok (record { range = range; owner = heap }), some s')
unfolding allocate_contiguous_owned
owned-ok s s' n range e = rw (allocate_contiguous_owned, e, e) refl

reserve-some :
    (s t : Snapshot) (start len : ℕ) {r : Result MemoryMapError (Unit {0})}
    → reserve_range s start len kernel ≡ (r, t)
    → reserve (some s) start len kernel ≡ (r, some t)
unfolding reserve
reserve-some s t start len e = rw (reserve, e) refl

reserved-cases :
    (p : Result MemoryMapError (Unit {0}) × Snapshot)
    → ((t : Snapshot) × (p ≡ (ok tt, t)))
      ⊎ ((e : MemoryMapError) × (t : Snapshot) × (p ≡ (err e, t)))
reserved-cases (ok tt, t) = inl (t, refl)
reserved-cases (err e, t) = inr (e, t, refl)

-- From a map whose usable ranges are in order and apart, the choice of the heap ends in one of three
-- ways: it reports that no frame is usable, exactly when none is free; it fails to reserve the heap
-- in the map, as when the table is full; or it takes a heap that is not empty, all of it usable
-- memory before and kernel memory afterwards, and no address of it is free in the frame allocator.
pub take_heap_lem :
    (s : Snapshot)
    → IsMap s
    → IsOrdered 0 s
    → ((take_heap (some s) none ≡ (err no_conventional_memory, some s, some (new s)))
        × (largest_free_frames (new s) ≡ 0))
      ⊎ (((f : GlobalAllocator) × (m : MemoryMap) × (take_heap (some s) none
              ≡ (err memory_reservation_failed, m, f)))
          ⊎ ((region : HeapRegion) × (m : MemoryMap) × (f : GlobalAllocator) × (take_heap
                  (some s)
                  none
                ≡ (ok region, m, f))
              × IsHeap s region m f))
unfolding take_heap initialize global_largest
take_heap_lem s v o = elim (Bool-cases (largest_free_frames (new s) == 0)) [
  | inl none_free ↦ inl (rw (take_heap, none_free) refl, ground arith)
  | inr some_free ↦
      let (a, _, c) = new_lem s o in
      let n = largest_free_frames (new s) in
      elim (allocate_contiguous_lem (new s) n a) [
        | inl (bad, e) ↦ absurd (ground arith)
        | inr (pos, le, (start, f, e, k)) ↦
            let d = owned-ok (new s) f n (record { start = start; length = n * page_size }) e in
            elim (reserved-cases (reserve_range s start (n * page_size) kernel)) [
              | inr (x, t, r) ↦
                  let q = reserve-some s t start (n * page_size) r in
                  inr (inl (some f, some t, rw (take_heap, some_free, d, q, q, d) refl))
              | inl (t, r) ↦
                  let (vt, kinds) = reserve_range_lem s start (n * page_size) kernel v r in
                  let q = reserve-some s t start (n * page_size) r in
                  let used : (x : ℕ)
                      → between start (start + n * page_size) x ≡ true
                      → usable_in s x ≡ true =
                    λ x i. c x (k.was_managed x i) in
                  inr (
                    inr (
                      record { start = start; size = n * page_size },
                      some t,
                      some f,
                      rw (take_heap, some_free, d, q, q, d) refl,
                      record {
                        map = t;
                        frames = f;
                        map-eq = refl;
                        frames-eq = refl;
                        map-IsMap = vt;
                        frames-IsAllocator = k.valid;
                        nonempty = omega (arith, pos);
                        was_usable = used;
                        now_kernel = λ x i.
                            kinds x
                            ∙ kernel-kind start (n * page_size) x (kind_at s x) i
                                (usable_in-kind_at s x v.ranges (used x i));
                        not_free = λ x i. let p = k.taken x in ground arith;
                      },
                    ))
            ]
      ]
]
