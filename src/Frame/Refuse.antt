-- ===== src/Frame/Refuse.antt =====
-- `FrameAllocator::release`: when a frame is refused, and that a refusal changes nothing.
use agnost_os.Base.{
  ℕ, suc, ◌+◌, ◌-◌, ◌%◌, ◌<◌, ◌≡◌, refl, ap, ◌∙◌, true, false, List, [], ◌∷◌, ◌++◌, arith, ◌==◌,
  inl, inr, ◌⊎◌, Result, ok, err, length, length-append, All, saturating,
}
use mathlib.Core.Path.{subst}
use agnost_os.Memory.Pieces.{between}
use agnost_os.Frame.{
  FreeRange, FrameError, FrameAllocator, FrameAddress, free_at, find_index, page_size,
  max_free_ranges, manages, release, free_range_storage_full,
}
use agnost_os.Frame.Table.{free_at-append, free_at-zero}
use agnost_os.Frame.Ranges.{
  stop, covers, IsSorted, last_stop, covers-append, IsSorted-right, IsSplit, find_index-IsSplit,
}
use agnost_os.Frame.Freed.{IsFrame, snoc-cases}
use agnost_os.Frame.Invariant.{IsAllocator}
use agnost_os.Frame.Touch.{
  IsTaken, Accepts-prefix, free_first-Accepts, free_after-Accepts, next-clear, previous-clear,
  or-right, covers-tail, next-IsApart, previous-ends, covers-skip,
}
use agnost_os.Frame.Release.{All-last, manages-IsFrame}
use mathlib.Core.List.{append_assoc}

-- An answer to a release, with what a refusal says.
abbrev IsAnswer : Result FrameError (List FreeRange) → List FreeRange → ℕ → Type 0
IsAnswer m ranges address =
    ((out : List FreeRange) × (m ≡ ok out))
    ⊎ ((m ≡ err free_range_storage_full)
        × (length ranges ≡ max_free_ranges)
        × (covers ranges (address - 1) ≡ false)
        × (covers ranges (address + page_size) ≡ false))

free_at-IsAnswer :
    (ranges : List FreeRange) (address : ℕ) (xs ys : List FreeRange)
    → IsSplit ranges address xs ys
    → IsSorted 0 ranges
    → IsFrame address
    → IsTaken ranges address
    → IsAnswer (free_at ranges (find_index ranges address) address) ranges address
free_at-IsAnswer ranges address [] ys w s f t =
    let e1 : find_index ranges address ≡ 0 = w.index in
    let e2 : ranges ≡ ys = w.whole in
    let s' = subst (IsSorted 0) e2 s in
    let t' = subst (λ z. IsTaken z address) e2 t in
    let c = next-clear 0 address ys s' f t' w.later in
    rw (e1, e2, free_at-zero ys address)
      (elim (free_first-Accepts ys (length ys == max_free_ranges) address c) [
        | inl answer ↦ inl answer
        | inr (e, _, next, full) ↦
            let (below, above) = next-IsApart 0 address ys s' f t' w.later next in
            inr (e, ground arith, below, above)
      ])
free_at-IsAnswer ranges address (x ∷ xs) ys w s f t =
    let (zs, p, e) = snoc-cases x xs in
    let n : find_index ranges address ≡ suc (length zs) =
      omega (arith, w.index, ap length e, length-append zs (p ∷ [])) in
    let r : ranges ≡ zs ++ p ∷ ys = w.whole ∙ (ap (λ q. q ++ ys) e ∙ append_assoc zs (p ∷ []) ys) in
    let sr = subst (IsSorted 0) r s in
    let sp = IsSorted-right 0 zs (p ∷ ys) sr in
    let t' : IsTaken (zs ++ p ∷ ys) address = subst (λ z. IsTaken z address) r t in
    let tp : IsTaken (p ∷ ys) address =
      λ x i. or-right (covers zs x) (covers-append zs (p ∷ ys) x) (t' x i) in
    let ty : IsTaken ys address = λ x i. covers-tail p ys x (tp x i) in
    let early : p.start < address =
      All-last (λ q. q.start < address) zs p (subst (All (λ q. q.start < address)) e w.before) in
    let g = previous-clear (last_stop 0 zs) address p ys sp tp early in
    let c = next-clear (stop p) address ys (sp.3) f ty w.later in
    let full = length (zs ++ p ∷ ys) == max_free_ranges in
    rw (n, r, free_at-append zs p ys address)
      (elim (Accepts-prefix zs _ _ _ full (free_after-Accepts p ys full address g c)) [
        | inl answer ↦ inl answer
        | inr (e', before, next, full') ↦
            let ends = previous-ends (last_stop 0 zs) address p ys sp g before in
            let (below, above) = next-IsApart (stop p) address ys (sp.3) f ty w.later next in
            inr (
              e',
              ground arith,
              covers-skip zs p ys (address - 1) sr (omega arith) below,
              covers-skip zs p ys (address + page_size) sr (omega arith) above,
            )
      ])

-- A frame that is aligned, lies in a managed range and of which no address is free is taken back,
-- but for one case: the table of free ranges is full, and the frame touches none of them, so that
-- neither the address before it nor the one behind it is free; then nothing changes.
pub release-accepts :
    (s : FrameAllocator) (address : ℕ)
    → IsAllocator s
    → address % page_size ≡ 0
    → manages s.managed address ≡ true
    → ((x : ℕ) → between address (address + page_size) x ≡ true → covers s.ranges x ≡ false)
    → ((s' : FrameAllocator) × (release s (record { address = address }) ≡ (ok tt, s')))
      ⊎ ((release s (record { address = address }) ≡ (err free_range_storage_full, s))
          × (length s.ranges ≡ max_free_ranges)
          × (covers s.ranges (address - 1) ≡ false)
          × (covers s.ranges (address + page_size) ≡ false))
unfolding release
release-accepts s address v even m t =
    let (f, _) = manages-IsFrame 0 address s.managed v.managed_sorted m in
    let (xs, ys, w) = find_index-IsSplit s.ranges address in
    let q : (address % page_size == 0) ≡ true = ground arith in
    elim (free_at-IsAnswer s.ranges address xs ys w v.free_sorted f t) [
      | inl (out, e) ↦ inl (
        record s { ranges = out; free_frames = saturating (s.free_frames + 1) },
        rw (release, q, m, e) refl,
      )
      | inr (e, full, below, above) ↦ inr (rw (release, q, m, e) refl, full, below, above)
    ]

-- A release that is refused changes nothing.
pub release-err :
    (s : FrameAllocator) (frame : FrameAddress) {e : FrameError} {s' : FrameAllocator}
    → release s frame ≡ (err e, s')
    → s' ≡ s
unfolding release
release-err s frame h = ground arith
