-- ===== src/Frame/Allocate.antt =====
-- `FrameAllocator::allocate`: which frame is handed out.
use agnost_os.Base.{
  ℕ, suc, ◌+◌, ◌-◌, ◌*◌, ◌≤◌, ◌<◌, ◌≡◌, refl, ap, ◌∙◌, Bool, true, false, not, ◌&&◌, List, [], ◌∷◌,
  ◌++◌, arith, ◌==◌, if◌then◌else◌, Bool-cases, inl, inr, ◌⊎◌, ok, err, length, length-set, get_or,
  set, saturating, u64_max,
}
use mathlib.Core.Path.{subst}
use agnost_os.Memory.Pieces.{between}
use agnost_os.Frame.{
  FreeRange, FrameAllocator, page_size, no_range, allocate, take_frames, out_of_memory,
}
use agnost_os.Frame.Table.{remove_range-append, set-append, get_or-append}
use agnost_os.Frame.Ranges.{
  stop, covers, sum_frames, IsSorted, last_stop, covers-append, sum_frames-append, IsSorted-append,
  IsSorted-left, IsSorted-right, IsSorted-lower, covers-below, covers-above,
}
use agnost_os.Frame.Invariant.{IsAllocator}
use agnost_os.Frame.Release.{remove_range-count}

-- The first `frames` frames of a range are taken away.
pub record IsTakenOut (low address len : ℕ) (ranges out : List FreeRange) (frames : ℕ)
    : Type 0 where
  pub sorted : IsSorted low out
  pub sum : sum_frames ranges ≡ sum_frames out + frames
  pub taken : (x : ℕ) → covers out x ≡ (covers ranges x && not (between address (address + len) x))
  pub was_free : (x : ℕ) → between address (address + len) x ≡ true → covers ranges x ≡ true

pub taken-front :
    (low frames : ℕ) (r : FreeRange) (rs : List FreeRange)
    → IsSorted low (r ∷ rs)
    → 0 < frames
    → frames ≤ r.frames
    → IsTakenOut low r.start
        (frames * page_size)
        (r ∷ rs)
        (if r.frames - frames == 0
          then rs
          else record { start = r.start + frames * page_size; frames = r.frames - frames } ∷ rs)
        frames
unfolding covers sum_frames
taken-front low frames r rs (a, b, c, s) pos le = elim (Bool-cases (r.frames - frames == 0)) [
  | inl all ↦ rw all (record {
    sorted = IsSorted-lower (stop r) low rs (omega arith) s;
    sum = ground arith;
    taken = λ x. let d = covers-below (stop r) rs x s in ground arith;
    was_free = λ x i. ground arith;
  })
  | inr some_left ↦ rw some_left (record {
    sorted =
        (omega arith, ground arith, ground arith, IsSorted-lower (stop r) _ rs (ground arith) s);
    sum = ground arith;
    taken = λ x. let d = covers-below (stop r) rs x s in ground arith;
    was_free = λ x i. ground arith;
  })
]

pub take_frames-count :
    (rs : List FreeRange) (index start frames : ℕ)
    → length (take_frames rs index start frames) ≤ length rs
unfolding take_frames
take_frames-count rs index start frames =
    let left = (get_or rs index no_range).frames - frames in
    let v : FreeRange = record { start = start; frames = left } in
    elim (Bool-cases (left == 0)) [
      | inl gone ↦
          rw gone (omega (arith, remove_range-count (set rs index v) index, length-set rs index v))
      | inr stays ↦ rw stays (omega (arith, length-set rs index v))
    ]

pub taken-IsAllocator :
    (s : FrameAllocator) (address len frames : ℕ) (out : List FreeRange)
    → IsAllocator s
    → length out ≤ length s.ranges
    → IsTakenOut 0 address len s.ranges out frames
    → IsAllocator (record s { ranges = out; free_frames = s.free_frames - frames })
taken-IsAllocator s address len frames out v n k = record {
  free_sorted = k.sorted;
  managed_sorted = v.managed_sorted;
  count = omega (arith, v.count);
  counted = omega (arith, k.sum, v.counted);
  contained = λ x c. let a = k.taken x in let b = v.contained x in ground arith;
}

-- What a successful allocation of `len` bytes at `address` has done: all of them were free and
-- managed, they alone are free no more, and the state is as it must be between calls.
pub record IsAllocated (s s' : FrameAllocator) (address len : ℕ) : Type 0 where
  pub valid : IsAllocator s'
  pub was_free : (x : ℕ) → between address (address + len) x ≡ true → covers s.ranges x ≡ true
  pub was_managed : (x : ℕ) → between address (address + len) x ≡ true → covers s.managed x ≡ true
  pub taken :
      (x : ℕ) → covers s'.ranges x ≡ (covers s.ranges x && not (between address (address + len) x))

taken-append :
    (low address len frames : ℕ) (xs ys : List FreeRange) {out : List FreeRange}
    → IsSorted low xs
    → last_stop low xs ≤ address
    → IsTakenOut (last_stop low xs) address len ys out frames
    → IsTakenOut low address len (xs ++ ys) (xs ++ out) frames
taken-append low address len frames xs ys {out} s le k = record {
  sorted = IsSorted-append low xs out s k.sorted;
  sum = omega (arith, sum_frames-append xs ys, sum_frames-append xs out, k.sum);
  taken = λ x.
      let a = k.taken x in
      let b = covers-append xs ys x in
      let c = covers-append xs out x in let d = covers-above low xs x s in ground arith;
  was_free = λ x i. let a = k.was_free x i in let b = covers-append xs ys x in ground arith;
}

choose-append :
    (b : Bool) (xs ys zs : List FreeRange)
    → (if b then xs ++ ys else xs ++ zs) ≡ xs ++ (if b then ys else zs)
choose-append true xs ys zs = refl
choose-append false xs ys zs = refl

take_frames-append :
    (xs : List FreeRange) (r : FreeRange) (rs : List FreeRange) (start frames : ℕ)
    → take_frames (xs ++ r ∷ rs) (length xs) start frames
      ≡ xs
        ++ (if r.frames - frames == 0
            then rs
            else record { start = start; frames = r.frames - frames } ∷ rs)
unfolding take_frames
take_frames-append xs r rs start frames =
    let v : FreeRange = record { start = start; frames = r.frames - frames } in
    rw (get_or-append xs r rs no_range, set-append xs r rs v, remove_range-append xs v rs)
      (choose-append (r.frames - frames == 0) xs rs (v ∷ rs))

-- Frames taken from a range of the table, wherever it stands.
pub take_frames_lem :
    (ranges xs : List FreeRange) (r : FreeRange) (rs : List FreeRange) (frames : ℕ)
    → ranges ≡ xs ++ r ∷ rs
    → IsSorted 0 ranges
    → 0 < frames
    → frames ≤ r.frames
    → (r.start + frames * page_size < u64_max)
      × IsTakenOut 0 r.start
          (frames * page_size)
          ranges
          (take_frames ranges (length xs) (r.start + frames * page_size) frames)
          frames
take_frames_lem ranges xs r rs frames e s pos le =
    let s' = subst (IsSorted 0) e s in
    let t = IsSorted-right 0 xs (r ∷ rs) s' in
    let k = taken-front (last_stop 0 xs) frames r rs t pos le in
    (
      omega (arith, t.2),
      rw (e, take_frames-append xs r rs (r.start + frames * page_size) frames)
          (taken-append 0 r.start (frames * page_size) frames xs (r ∷ rs)
            (IsSorted-left 0 xs (r ∷ rs) s') t.0 k),
    )

-- The state after it.
pub take_frames-IsAllocated :
    (s : FrameAllocator) (xs : List FreeRange) (r : FreeRange) (rs : List FreeRange) (frames : ℕ)
    → IsAllocator s
    → s.ranges ≡ xs ++ r ∷ rs
    → 0 < frames
    → frames ≤ r.frames
    → IsAllocated s
        (record s {
          ranges = take_frames s.ranges (length xs) (r.start + frames * page_size) frames;
          free_frames = s.free_frames - frames;
        })
        r.start
        (frames * page_size)
take_frames-IsAllocated s xs r rs frames v e pos le =
    let (_, k) = take_frames_lem s.ranges xs r rs frames e v.free_sorted pos le in
    record {
      valid =
          taken-IsAllocator s r.start (frames * page_size) frames _ v
            (take_frames-count s.ranges (length xs) (r.start + frames * page_size) frames) k;
      was_free = k.was_free;
      was_managed = λ x i. v.contained x (k.was_free x i);
      taken = k.taken;
    }

allocate-ranges :
    (s : FrameAllocator) (ranges : List FreeRange)
    → IsAllocator s
    → s.ranges ≡ ranges
    → ((s.free_frames ≡ 0) × (allocate s ≡ (err out_of_memory, s)))
      ⊎ ((0 < s.free_frames)
          × ((address : ℕ) × (s' : FrameAllocator) × (allocate s
                ≡ (ok (record { address = address }), s'))
              × IsAllocated s s' address page_size))
unfolding allocate sum_frames
allocate-ranges s [] v e = inl (v.counted ∙ ap sum_frames e, rw (allocate, e) refl)
allocate-ranges s (r ∷ rs) v e =
    let t = subst (IsSorted 0) e v.free_sorted in
    let (b, _) =
      take_frames_lem s.ranges [] r rs 1 e v.free_sorted (omega arith) (omega (arith, t.1)) in
    let m : saturating (r.start + page_size) ≡ r.start + 1 * page_size = ground arith in
    let z : (suc (length rs) == 0) ≡ false = ground arith in
    let c : s.free_frames ≡ r.frames + sum_frames rs = v.counted ∙ ap sum_frames e in
    inr (
      omega (arith, c, t.1),
      (
        r.start,
        _,
        rw (allocate, e, z, m) refl,
        take_frames-IsAllocated s [] r rs 1 v e (omega arith) (omega (arith, t.1)),
      ),
    )

-- An allocation of one frame fails only when no frame is free, and then changes nothing; otherwise
-- it hands out a frame that was free.
pub allocate_lem :
    (s : FrameAllocator)
    → IsAllocator s
    → ((s.free_frames ≡ 0) × (allocate s ≡ (err out_of_memory, s)))
      ⊎ ((0 < s.free_frames)
          × ((address : ℕ) × (s' : FrameAllocator) × (allocate s
                ≡ (ok (record { address = address }), s'))
              × IsAllocated s s' address page_size))
unfolding allocate
allocate_lem s v = allocate-ranges s s.ranges v refl
