-- ===== src/Frame/Release.antt =====
-- `FrameAllocator::release`: the frame that comes back, coalesced, and the frames it refuses.
use agnost_os.Base.{
  ℕ, zero, suc, ◌+◌, ◌-◌, ◌≤◌, ◌<◌, ◌≡◌, sym, ap, ◌∙◌, Bool, true, false, ◌&&◌, ◌||◌, List, [], ◌∷◌,
  ◌++◌, arith, ltb, leb, ◌==◌, if◌then◌else◌, Bool-cases, inl, inr, ok, err, Result-cases, length,
  length-append, length-set, get_or, set, All, saturating,
}
use mathlib.Core.Path.{subst}
use agnost_os.Memory.Pieces.{between}
use agnost_os.Frame.{
  FreeRange, FrameAllocator, free_at, find_index, free_end, page_size, no_range, max_free_ranges,
  remove_range, insert_range, manages, release, invalid_address, free_range_storage_full,
}
use agnost_os.Frame.Table.{free_after, free_first, free_at-append, free_at-zero, prefix}
use agnost_os.Frame.Ranges.{
  stop, covers, IsSorted, last_stop, free_end-stop, IsSorted-left, IsSorted-right, IsSplit,
  find_index-IsSplit,
}
use agnost_os.Frame.Freed.{
  IsFreed, IsFrame, IsFreed-append, snoc-cases, prefix-ok, free_first-ok, free_after-ok,
}
use mathlib.Core.List.{append_assoc}
use agnost_os.Frame.Invariant.{IsAllocator, sum_frames-bound}

pub All-last : {A : Type 0} (P : A → Type 0) (xs : List A) (y : A) → All P (xs ++ y ∷ []) → P y
All-last P [] y h = h.0
All-last P (x ∷ xs) y h = All-last P xs y h.1

free_at-split :
    (ranges : List FreeRange) (address : ℕ) (xs ys : List FreeRange) {out : List FreeRange}
    → IsSplit ranges address xs ys
    → IsSorted 0 ranges
    → IsFrame address
    → free_at ranges (find_index ranges address) address ≡ ok out
    → IsFreed 0 address ranges out
free_at-split ranges address [] ys {out} w s f h =
    let e1 : find_index ranges address ≡ 0 = w.index in
    let e2 : ranges ≡ ys = w.whole in
    let h' : free_first ys (length ys == max_free_ranges) address ≡ ok out =
      cc (free_at-zero ys address) in
    subst (λ z. IsFreed 0 address z out) (sym e2)
      (free_first-ok 0 address f ys (length ys == max_free_ranges) (subst (IsSorted 0) e2 s)
        (omega arith) w.later h')
free_at-split ranges address (x ∷ xs) ys {out} w s f h =
    let (zs, p, e) = snoc-cases x xs in
    let n : find_index ranges address ≡ suc (length zs) =
      omega (arith, w.index, ap length e, length-append zs (p ∷ [])) in
    let r : ranges ≡ zs ++ p ∷ ys = w.whole ∙ (ap (λ q. q ++ ys) e ∙ append_assoc zs (p ∷ []) ys) in
    let s' = subst (IsSorted 0) r s in
    let sp = IsSorted-right 0 zs (p ∷ ys) s' in
    let early : p.start < address =
      All-last (λ q. q.start < address) zs p (subst (All (λ q. q.start < address)) e w.before) in
    let full = length (zs ++ p ∷ ys) == max_free_ranges in
    let h' : prefix zs (free_after p ys full address) ≡ ok out =
      cc (free_at-append zs p ys address) in
    let (rest, g, o) = prefix-ok zs (free_after p ys full address) h' in
    let k = free_after-ok (last_stop 0 zs) address f p ys full sp w.later g in
    subst (λ z. IsFreed 0 address z out) (sym r)
      (subst (IsFreed 0 address (zs ++ p ∷ ys)) (sym o) (
        IsFreed-append 0 address zs (p ∷ ys) (IsSorted-left 0 zs (p ∷ ys) s') (omega (arith, sp.0))
          k))

pub free_at-ok :
    (ranges : List FreeRange) (address : ℕ) {out : List FreeRange}
    → IsSorted 0 ranges
    → IsFrame address
    → free_at ranges (find_index ranges address) address ≡ ok out
    → IsFreed 0 address ranges out
free_at-ok ranges address s f h =
    let (xs, ys, w) = find_index-IsSplit ranges address in
    free_at-split ranges address xs ys w s f h

-- A frame that lies in a sorted table of managed ranges ends before the last address, and each of
-- its addresses is covered.
pub manages-IsFrame :
    (low address : ℕ) (ms : List FreeRange)
    → IsSorted low ms
    → manages ms address ≡ true
    → IsFrame address
      × ((x : ℕ) → between address (address + page_size) x ≡ true → covers ms x ≡ true)
unfolding manages covers
manages-IsFrame low address [] s h = ground arith
manages-IsFrame low address (r ∷ rs) (a, b, c, s) h =
    elim (Bool-cases (leb r.start address && leb (saturating (address + page_size)) (free_end r))) [
      | inl here ↦ let e = free_end-stop r c in (ground arith, λ x i. ground arith)
      | inr other ↦
          let h' : manages rs address ≡ true = ground arith in
          let (f, k) = manages-IsFrame (stop r) address rs s h' in
          (f, λ x i. let g = k x i in ground arith)
    ]

pub remove_range-count : (rs : List FreeRange) (i : ℕ) → length (remove_range rs i) ≤ length rs
unfolding remove_range
remove_range-count [] i = omega arith
remove_range-count (r ∷ rs) zero = omega arith
remove_range-count (r ∷ rs) (suc i) = omega (arith, remove_range-count rs i)

insert_range-count :
    (rs : List FreeRange) (i : ℕ) (v : FreeRange) → length (insert_range rs i v) ≤ length rs + 1
unfolding insert_range
insert_range-count rs zero v = omega arith
insert_range-count [] (suc i) v = omega arith
insert_range-count (r ∷ rs) (suc i) v = omega (arith, insert_range-count rs i v)

-- One of the four ways in which `free_at` succeeds.
free_at-choices :
    (a b c d e : Bool) (n : ℕ) (merged grown first new : List FreeRange) {out : List FreeRange}
    → n ≤ max_free_ranges
    → length merged ≤ n
    → length grown ≤ n
    → length first ≤ n
    → length new ≤ n + 1
    → (if a
        then err invalid_address
        else if b
        then err invalid_address
        else if c
        then (if d then ok merged else ok grown)
        else if e
        then ok first
        else if n == max_free_ranges
        then err free_range_storage_full
        else ok new)
      ≡ ok out
    → length out ≤ max_free_ranges
free_at-choices a b c d e n merged grown first new h k1 k2 k3 k4 q = ground arith

free_at-count :
    (ranges : List FreeRange) (index address : ℕ) {out : List FreeRange}
    → length ranges ≤ max_free_ranges
    → free_at ranges index address ≡ ok out
    → length out ≤ max_free_ranges
unfolding free_at
free_at-count ranges index address h e =
    let p = get_or ranges (index - 1) no_range in
    let n = get_or ranges index no_range in
    let grown : FreeRange = record p { frames = p.frames + 1 } in
    let merged : FreeRange = record p { frames = p.frames + 1 + n.frames } in
    let first : FreeRange = record { start = address; frames = n.frames + 1 } in
    let one : FreeRange = record { start = address; frames = 1 } in
    free_at-choices (ltb 0 index && ltb address (free_end p))
      (ltb index (length ranges) && ltb n.start (saturating (address + page_size)))
      (ltb 0 index && free_end p == address)
      (ltb index (length ranges) && free_end grown == n.start)
      (ltb index (length ranges) && saturating (address + page_size) == n.start) (length ranges)
      (remove_range (set ranges (index - 1) merged) index) (set ranges (index - 1) grown)
      (set ranges index first) (insert_range ranges index one) h
      (omega (
        arith,
        remove_range-count (set ranges (index - 1) merged) index,
        length-set ranges (index - 1) merged,
      ))
      (omega (arith, length-set ranges (index - 1) grown))
      (omega (arith, length-set ranges index first)) (insert_range-count ranges index one) e

abbrev freed : FrameAllocator → List FreeRange → FrameAllocator
freed s out = record s { ranges = out; free_frames = saturating (s.free_frames + 1) }

release-ok :
    (s : FrameAllocator) (address : ℕ) {s' : FrameAllocator}
    → release s (record { address = address }) ≡ (ok tt, s')
    → (manages s.managed address ≡ true)
      × ((out : List FreeRange) × (free_at s.ranges (find_index s.ranges address) address ≡ ok out)
          × (s' ≡ freed s out))
unfolding release
release-ok s address h =
    elim (Result-cases (free_at s.ranges (find_index s.ranges address) address)) [
      | inl (out, good) ↦ (ground arith, (out, good, ground arith))
      | inr (e, bad) ↦ ground arith
    ]

-- A frame that `release` takes back was not free: none of its addresses was covered. Afterwards
-- exactly its addresses are free besides those that were before; the free list stays in order,
-- within its table and inside the managed ranges, and the counter stays right.
pub release_lem :
    (s : FrameAllocator) (address : ℕ) {s' : FrameAllocator}
    → IsAllocator s
    → release s (record { address = address }) ≡ (ok tt, s')
    → IsAllocator s'
      × ((x : ℕ)
          → covers s'.ranges x ≡ (covers s.ranges x || between address (address + page_size) x))
      × ((x : ℕ) → between address (address + page_size) x ≡ true → covers s.ranges x ≡ false)
release_lem s address {s'} v h =
    let (m, (out, good, e)) = release-ok s address h in
    let (f, inside) = manages-IsFrame 0 address s.managed v.managed_sorted m in
    let k = free_at-ok s.ranges address v.free_sorted f good in
    let bound = sum_frames-bound 0 out (omega arith) k.sorted in
    (
      subst IsAllocator (sym e) (record {
        free_sorted = k.sorted;
        managed_sorted = v.managed_sorted;
        count = free_at-count s.ranges (find_index s.ranges address) address v.count good;
        counted = ground (arith, k.sum, v.counted, bound);
        contained =
            λ x c. let a = k.added x in let b = v.contained x in let d = inside x in ground arith;
      }),
      subst
          (λ z.
            (x : ℕ)
            → covers z.ranges x ≡ (covers s.ranges x || between address (address + page_size) x))
          (sym e) k.added,
      k.was_taken,
    )
