-- ===== src/Heap/Initialize.antt =====
-- `initialize_heap`: from the firmware's map to the heap.
use agnost_os.Base.{
  ℕ, ◌+◌, ◌<◌, ◌≡◌, refl, sym, ◌∙◌, true, false, Option, none, some, List, map, inl, inr, ◌⊎◌,
  Result, ok, err,
}
use mathlib.Core.Path.{subst}
use agnost_os.Memory.{Descriptor, MemoryMap, Snapshot, kind_at, kernel}
use agnost_os.Memory.Pieces.{between}
use agnost_os.Memory.Reserve.{IsMap}
use agnost_os.Memory.Copy.{range_of}
use agnost_os.Frame.{FrameAllocator}
use agnost_os.Frame.Ranges.{covers}
use agnost_os.Frame.Boot.{IsOrdered}
use agnost_os.Frame.Global.{GlobalAllocator}
use agnost_os.Heap.{HeapRegion, HeapError, KernelMemory, reserve_image, take_heap, initialize_heap}
use agnost_os.Heap.Image.{usable_outside, reserve_image-TakenFrom}
use agnost_os.Heap.Setup.{IsHeap, take_heap_lem}

-- A heap that is set up is not empty and is recorded as such. Each of its addresses is usable memory
-- in the firmware's map, lies outside the framebuffer, the kernel's image and the window of 64 pages
-- around the stack, is kernel memory in the kernel's map, and is not free in the frame allocator.
pub record IsHeapOf (s : Snapshot) (framebuffer image : ℕ × ℕ) (stack : ℕ) (region : HeapRegion)
    (k : KernelMemory) : Type 0 where
  pub recorded : (k.heap_start ≡ region.start) × (k.heap_size ≡ region.size)
  pub nonempty : 0 < region.size
  pub outside :
      (x : ℕ)
      → between region.start (region.start + region.size) x ≡ true
      → usable_outside s framebuffer image stack x ≡ true
  pub owned :
      (m : Snapshot) × (f : FrameAllocator) × (k.memory ≡ some m)
      × (k.frames ≡ some f)
      × ((x : ℕ)
          → between region.start (region.start + region.size) x ≡ true
          → (kind_at m x ≡ some kernel) × (covers f.ranges x ≡ false))

take_heap-IsHeap :
    (s : Snapshot) {region : HeapRegion} {m : MemoryMap} {f : GlobalAllocator}
    → IsMap s
    → IsOrdered 0 s
    → take_heap (some s) none ≡ (ok region, m, f)
    → IsHeap s region m f
take_heap-IsHeap s {region} {m} {f} v o h = elim (take_heap_lem s v o) [
  | inl (e, _) ↦ let clash = sym e ∙ h in cc
  | inr (inl (f', m', e)) ↦ let clash = sym e ∙ h in cc
  | inr (inr (region', m', f', e, k)) ↦
      let same = sym e ∙ h in
      let p : region' ≡ region = cc in
      let q : m' ≡ m = cc in
      let r : f' ≡ f = cc in
      subst (λ x. IsHeap s x m f) p
        (subst (λ x. IsHeap s region' x f) q (subst (λ x. IsHeap s region' m' x) r k))
]

-- Nothing is set up yet.
abbrev pub fresh : KernelMemory
fresh = record { heap_start = 0; heap_size = 0; memory = none; frames = none }

heap-cases :
    (p : Result HeapError HeapRegion × MemoryMap × GlobalAllocator)
    → ((region : HeapRegion) × (m : MemoryMap) × (f : GlobalAllocator) × (p ≡ (ok region, m, f)))
      ⊎ ((e : HeapError) × (m : MemoryMap) × (f : GlobalAllocator) × (p ≡ (err e, m, f)))
heap-cases (ok region, m, f) = inl (region, m, f, refl)
heap-cases (err e, m, f) = inr (e, m, f, refl)

image-cases :
    (p : Result HeapError (Unit {0}) × MemoryMap)
    → ((m : MemoryMap) × (p ≡ (ok tt, m))) ⊎ ((e : HeapError) × (m : MemoryMap) × (p ≡ (err e, m)))
image-cases (ok tt, m) = inl (m, refl)
image-cases (err e, m) = inr (e, m, refl)

initialize_heap-ok :
    (ds : List Descriptor) (framebuffer : Option (ℕ × ℕ)) (image : ℕ × ℕ) (stack : ℕ)
    {region : HeapRegion} {k : KernelMemory}
    → initialize_heap fresh ds framebuffer image stack ≡ (ok region, k)
    → (m : MemoryMap) × (reserve_image none ds framebuffer image stack ≡ (ok tt, m))
      × (take_heap m none ≡ (ok region, k.memory, k.frames))
      × (k.heap_start ≡ region.start)
      × (k.heap_size ≡ region.size)
unfolding initialize_heap
initialize_heap-ok ds framebuffer image stack {region} {k} h =
    elim (image-cases (reserve_image none ds framebuffer image stack)) [
      | inr (e, m, p) ↦ let h1 = rw (p, initialize_heap) at h in cc
      | inl (m, p) ↦
          let h1 = rw (p, initialize_heap, p) at h in
          elim (heap-cases (take_heap m none)) [
            | inr (e, m', f', q) ↦ let h2 = rw q at h1 in cc
            | inl (region', m', f', q) ↦ let h2 = rw (q, p, q) at h1 in (m, p, cc, cc, cc)
          ]
    ]

-- From a firmware map whose usable ranges are in order and apart, an initialization of the heap that
-- succeeds has found a heap that is not empty and is recorded in HEAP_START and HEAP_SIZE. Each of
-- its addresses is usable in the firmware's map, lies outside the framebuffer, the kernel's image
-- and the window around the stack, is kernel memory in the kernel's map, and is not free in the
-- frame allocator.
pub initialize_heap_lem :
    (ds : List Descriptor) (framebuffer image : ℕ × ℕ) (stack : ℕ) {region : HeapRegion}
    {k : KernelMemory}
    → IsOrdered 0 (map range_of ds)
    → initialize_heap fresh ds (some framebuffer) image stack ≡ (ok region, k)
    → IsHeapOf (map range_of ds) framebuffer image stack region k
initialize_heap_lem ds framebuffer image stack {region} {k} o h =
    let (m, p, q, start, size) = initialize_heap-ok ds (some framebuffer) image stack h in
    let (s, e, v, os, u) = reserve_image-TakenFrom ds framebuffer image stack o p in
    let heap = take_heap-IsHeap s v os (rw e at q) in
    record {
      recorded = (start, size);
      nonempty = heap.nonempty;
      outside = λ x i. sym (u x) ∙ heap.was_usable x i;
      owned = (
        heap.map,
        heap.frames,
        heap.map-eq,
        heap.frames-eq,
        λ x i. (heap.now_kernel x i, heap.not_free x i),
      );
    }
