-- ===== src/Frame/Boot.antt =====
-- `FrameAllocator::new`: the allocator that a memory map makes, and a release that undoes an
-- allocation.
use agnost_os.Base.{
  ℕ, ◌+◌, ◌*◌, ◌/◌, ◌%◌, ◌≤◌, ◌<◌, ◌≡◌, refl, sym, ap, ◌∙◌, Bool, true, false, ◌&&◌, ◌||◌, List, [],
  ◌∷◌, ◌++◌, arith, ◌==◌, if◌then◌else◌, Bool-cases, inl, inr, ◌⊎◌, ok, err-ne-ok, length,
  length-append, u64_max,
}
use mathlib.Core.Path.{subst}
use agnost_os.Memory.Pieces.{between}
use agnost_os.Frame.{
  FreeRange, FrameAllocator, FrameAddress, page_size, max_free_ranges, manages, release, allocate,
}
use agnost_os.Frame.Ranges.{
  stop, covers, sum_frames, IsSorted, last_stop, covers-append, IsSorted-append,
}
use agnost_os.Frame.Invariant.{IsAllocator, sum_frames-bound}
use agnost_os.Memory.{MemoryRange}
use agnost_os.Frame.{new, add_all, add_managed, is_usable}
use agnost_os.Frame.Allocate.{IsAllocated, allocate_lem, take_frames-count}
use agnost_os.Frame.Release.{release_lem}
use agnost_os.Frame.Refuse.{release-accepts}

-- The usable ranges of a map are in order and apart, and end before the last address.
abbrev pub IsOrdered : ℕ → List MemoryRange → Type 0
IsOrdered low [] = Unit
IsOrdered low (r ∷ rs) =
    if is_usable r.kind
    then (low ≤ r.start) × (r.start + r.length < u64_max) × IsOrdered (r.start + r.length) rs
    else IsOrdered low rs

-- While the table is being filled: both tables are the same and in order up to `low`.
record IsFilling (low : ℕ) (s : FrameAllocator) : Type 0 where
  pub same : s.managed ≡ s.ranges
  pub sorted : IsSorted 0 s.ranges
  pub end : last_stop 0 s.ranges ≤ low
  pub count : length s.ranges ≤ max_free_ranges
  pub counted : s.free_frames ≡ sum_frames s.ranges
  pub total : s.total_frames ≡ sum_frames s.ranges

last_stop-append :
    (low : ℕ) (xs : List FreeRange) (r : FreeRange) → last_stop low (xs ++ r ∷ []) ≡ stop r
last_stop-append low [] r = refl
last_stop-append low (x ∷ xs) r = last_stop-append (stop x) xs r

sum_frames-one :
    (xs : List FreeRange) (r : FreeRange) → sum_frames (xs ++ r ∷ []) ≡ sum_frames xs + r.frames
unfolding sum_frames
sum_frames-one [] r = omega arith
sum_frames-one (x ∷ xs) r = omega (arith, sum_frames-one xs r)

IsFilling-later :
    (low low' : ℕ) (s : FrameAllocator) → low ≤ low' → IsFilling low s → IsFilling low' s
IsFilling-later low low' s le v = record {
  same = v.same;
  sorted = v.sorted;
  end = omega (arith, v.end);
  count = v.count;
  counted = v.counted;
  total = v.total;
}

add_managed-IsFilling :
    (low : ℕ) (s : FrameAllocator) (r : MemoryRange)
    → is_usable r.kind ≡ true
    → low ≤ r.start
    → r.start + r.length < u64_max
    → IsFilling low s
    → IsFilling (r.start + r.length) (add_managed s r)
unfolding add_managed
add_managed-IsFilling low s r u le m v =
    let frames = r.length / page_size in
    let entry : FreeRange = record { start = r.start; frames = frames } in
    elim (Bool-cases (length s.ranges == max_free_ranges || length s.managed == max_free_ranges)) [
      | inl full ↦ rw (u, full) (IsFilling-later low _ s (omega arith) v)
      | inr room ↦ elim (Bool-cases (frames == 0)) [
        | inl none_left ↦ rw (u, room, none_left) (IsFilling-later low _ s (omega arith) v)
        | inr some_left ↦
            let d : frames * page_size ≤ r.length = omega arith in
            let q : IsSorted 0 (s.ranges ++ entry ∷ []) =
              IsSorted-append 0 s.ranges (entry ∷ []) v.sorted
                (omega (arith, v.end), ground arith, omega arith, tt) in
            let t = sum_frames-one s.ranges entry in
            let n = length-append s.ranges (entry ∷ []) in
            let b = sum_frames-bound 0 (s.ranges ++ entry ∷ []) (omega arith) q in
            rw (u, room, some_left)
              (record {
                same = ap (λ z. z ++ entry ∷ []) v.same;
                sorted = q;
                end = rw (last_stop-append 0 s.ranges entry) (omega arith);
                count = ground (arith, n, v.count);
                counted = ground (arith, t, v.counted, b);
                total = ground (arith, t, v.total, b);
              })
      ]
    ]

add_managed-skip :
    (s : FrameAllocator) (r : MemoryRange) → is_usable r.kind ≡ false → add_managed s r ≡ s
unfolding add_managed
add_managed-skip s r e = rw e refl

add_all-IsFilling :
    (low : ℕ) (s : FrameAllocator) (rs : List MemoryRange)
    → IsOrdered low rs
    → IsFilling low s
    → (low' : ℕ) × IsFilling low' (add_all s rs)
unfolding add_all
add_all-IsFilling low s [] o v = (low, v)
add_all-IsFilling low s (r ∷ rs) o v = elim (Bool-cases (is_usable r.kind)) [
  | inr skip ↦
      let o' = rw skip at o in rw (add_managed-skip s r skip) (add_all-IsFilling low s rs o' v)
  | inl use_it ↦
      let (le, m, o') = rw use_it at o in
      add_all-IsFilling (r.start + r.length) (add_managed s r) rs o'
        (add_managed-IsFilling low s r use_it le m v)
]

-- Whether an address lies in one of the usable ranges.
unfoldable pub usable_in : List MemoryRange → ℕ → Bool
usable_in [] x = false
usable_in (r ∷ rs) x =
    (is_usable r.kind && between r.start (r.start + r.length) x) || usable_in rs x

covers-add_managed :
    (s : FrameAllocator) (r : MemoryRange) (x : ℕ)
    → covers (add_managed s r).ranges x ≡ true
    → (covers s.ranges x ≡ true)
      ⊎ ((is_usable r.kind && between r.start (r.start + r.length) x) ≡ true)
unfolding add_managed covers
covers-add_managed s r x h =
    let e =
      covers-append s.ranges (record { start = r.start; frames = r.length / page_size } ∷ []) x in
    let d : r.length / page_size * page_size ≤ r.length = omega arith in ground arith

covers-add_all :
    (s : FrameAllocator) (rs : List MemoryRange) (x : ℕ)
    → covers (add_all s rs).ranges x ≡ true
    → (covers s.ranges x ≡ true) ⊎ (usable_in rs x ≡ true)
unfolding add_all usable_in
covers-add_all s [] x h = inl h
covers-add_all s (r ∷ rs) x h = elim (covers-add_all (add_managed s r) rs x h) [
  | inr later ↦ ground arith
  | inl now ↦ let c = covers-add_managed s r x now in ground arith
]

no_frames : 0 ≡ sum_frames []
unfolding sum_frames
no_frames = refl

-- From a map whose usable ranges are in order and apart, the allocator starts as it must be between
-- calls, with all its frames free and counted, and every address that it may ever hand out lies in
-- a usable range of the map.
pub new_lem :
    (rs : List MemoryRange)
    → IsOrdered 0 rs
    → IsAllocator (new rs)
      × ((new rs).free_frames ≡ (new rs).total_frames)
      × ((x : ℕ) → covers (new rs).managed x ≡ true → usable_in rs x ≡ true)
unfolding new covers
new_lem rs o =
    let s0 : FrameAllocator = record {
      ranges = [];
      managed = [];
      total_frames = 0;
      free_frames = 0;
    } in
    let v0 : IsFilling 0 s0 = record {
      same = refl;
      sorted = tt;
      end = omega arith;
      count = omega arith;
      counted = no_frames;
      total = no_frames;
    } in
    let (low, v) = add_all-IsFilling 0 s0 rs o v0 in
    (
      record {
        free_sorted = v.sorted;
        managed_sorted = subst (IsSorted 0) (sym v.same) v.sorted;
        count = v.count;
        counted = v.counted;
        contained = λ x c. subst (λ z. covers z x ≡ true) (sym v.same) c;
      },
      v.counted ∙ sym v.total,
      λ x c.
          let k = covers-add_all s0 rs x (subst (λ z. covers z x ≡ true) v.same c) in ground arith,
    )

allocate-keeps :
    (s : FrameAllocator) {frame : FrameAddress} {s' : FrameAllocator}
    → allocate s ≡ (ok frame, s')
    → (s'.managed ≡ s.managed) × (length s'.ranges ≤ length s.ranges)
unfolding allocate
allocate-keeps s {frame} {s'} h = elim (Bool-cases (length s.ranges == 0)) [
  | inl gone ↦ let h' = rw (allocate, gone) at h in absurd (err-ne-ok (ap (λ p. p.0) h'))
  | inr there ↦
      let h' = rw (allocate, there) at h in
      let e = ap (λ p. p.1) h' in
      (
        sym (ap (λ z. z.managed) e),
        subst (λ z. length z.ranges ≤ length s.ranges) e (take_frames-count s.ranges 0 _ 1),
      )
]

-- A frame that was allocated can be released again, if it is aligned, lies in a managed range, and
-- the table of free ranges was not full before the allocation: the release is accepted and the same
-- addresses are free as before the allocation.
pub release-allocate :
    (s : FrameAllocator) (address : ℕ) {s' : FrameAllocator}
    → IsAllocator s
    → allocate s ≡ (ok (record { address = address }), s')
    → address % page_size ≡ 0
    → manages s.managed address ≡ true
    → length s.ranges < max_free_ranges
    → (s'' : FrameAllocator) × (release s' (record { address = address }) ≡ (ok tt, s''))
      × ((x : ℕ) → covers s''.ranges x ≡ covers s.ranges x)
release-allocate s address {s'} v h even m room = elim (allocate_lem s v) [
  | inl (_, e) ↦ absurd (err-ne-ok (ap (λ p. p.0) (sym e ∙ h)))
  | inr (_, (a, t, e, k)) ↦
      let same = sym e ∙ h in
      let same_state : t ≡ s' = ap (λ p. p.1) same in
      let same_address : a ≡ address = cc in
      let k' : IsAllocated s s' address page_size =
        subst (λ z. IsAllocated s z address page_size) same_state
          (subst (λ z. IsAllocated s t z page_size) same_address k) in
      let (keeps, shorter) = allocate-keeps s h in
      let m' : manages s'.managed address ≡ true = rw keeps m in
      let free : (x : ℕ)
          → between address (address + page_size) x ≡ true
          → covers s'.ranges x ≡ false =
        λ x i. let c = k'.taken x in ground arith in
      elim (release-accepts s' address k'.valid even m' free) [
        | inr (_, full, _, _) ↦ absurd (omega (arith, full, shorter, room))
        | inl (u, r) ↦
            let (_, added, _) = release_lem s' address k'.valid r in
            (
              u,
              r,
              λ x. let c = added x in let d = k'.taken x in let w = k'.was_free x in ground arith,
            )
      ]
]
