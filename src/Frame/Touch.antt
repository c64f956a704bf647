-- ===== src/Frame/Touch.antt =====
-- When a frame overlaps or touches the ranges about it, and what `release` answers then.
use agnost_os.Base.{
  ℕ, suc, ◌+◌, ◌-◌, ◌≤◌, ◌<◌, ◌≡◌, refl, Bool, true, false, ◌&&◌, ◌||◌, List, [], ◌∷◌, ◌++◌, arith,
  ltb, ◌==◌, if◌then◌else◌, inl, inr, ◌⊎◌, Result, ok, err, length, get_or, saturating,
}
use agnost_os.Memory.Pieces.{between}
use agnost_os.Frame.{FreeRange, FrameError, free_end, page_size, no_range, free_range_storage_full}
use agnost_os.Frame.Table.{free_after, free_first, prefix}
use agnost_os.Frame.Ranges.{
  stop, covers, IsSorted, covers-below, covers-above, IsSorted-left, free_end-stop, covers-append,
  IsSorted-right,
}
use agnost_os.Frame.Freed.{IsFrame, sat-frame}

-- What `free_at` may answer for a frame that is not free: it refuses only where the table is full and
-- neither the range before the frame nor the one behind it touches it.
abbrev Accepts : Result FrameError (List FreeRange) → Bool → Bool → Bool → Type 0
Accepts m before next full =
    ((out : List FreeRange) × (m ≡ ok out))
    ⊎ ((m ≡ err free_range_storage_full) × (before ≡ false) × (next ≡ false) × (full ≡ true))

accept-choices :
    (c d e f : Bool) (merged grown first new : List FreeRange)
    → Accepts
        (if c
          then (if d then ok merged else ok grown)
          else if e
          then ok first
          else if f
          then err free_range_storage_full
          else ok new)
        c
        e
        f
accept-choices true true e f merged grown first new = inl (merged, refl)
accept-choices true false e f merged grown first new = inl (grown, refl)
accept-choices false d true f merged grown first new = inl (first, refl)
accept-choices false d false true merged grown first new = inr (refl, refl, refl, refl)
accept-choices false d false false merged grown first new = inl (new, refl)

pub Accepts-prefix :
    (xs : List FreeRange) (m : Result FrameError (List FreeRange)) (before next full : Bool)
    → Accepts m before next full
    → Accepts (prefix xs m) before next full
Accepts-prefix xs m before next full (inl (out, e)) = inl (xs ++ out, rw e refl)
Accepts-prefix xs m before next full (inr (e, b, n, f)) = inr (rw e refl, b, n, f)

abbrev next_start : List FreeRange → ℕ
next_start ys = (get_or ys 0 no_range).start

abbrev touches_next : List FreeRange → ℕ → Bool
touches_next ys address = ltb 0 (length ys) && saturating (address + page_size) == next_start ys

pub free_first-Accepts :
    (ys : List FreeRange) (full : Bool) (address : ℕ)
    → (ltb 0 (length ys) && ltb (next_start ys) (saturating (address + page_size))) ≡ false
    → Accepts (free_first ys full address) false (touches_next ys address) full
free_first-Accepts ys full address h = rw h (accept-choices false false _ _ [] [] _ _)

pub free_after-Accepts :
    (p : FreeRange) (ys : List FreeRange) (full : Bool) (address : ℕ)
    → ltb address (free_end p) ≡ false
    → (ltb 0 (length ys) && ltb (next_start ys) (saturating (address + page_size))) ≡ false
    → Accepts (free_after p ys full address) (free_end p == address) (touches_next ys address) full
free_after-Accepts p ys full address g h = rw (g, h) (accept-choices _ _ _ _ _ _ _ _)

-- No address of the frame is covered.
abbrev pub IsTaken : List FreeRange → ℕ → Type 0
IsTaken rs address = (x : ℕ) → between address (address + page_size) x ≡ true → covers rs x ≡ false

pub next-clear :
    (low address : ℕ) (ys : List FreeRange)
    → IsSorted low ys
    → IsFrame address
    → IsTaken ys address
    → (ltb 0 (length ys) ≡ true → address ≤ next_start ys)
    → (ltb 0 (length ys) && ltb (next_start ys) (saturating (address + page_size))) ≡ false
unfolding covers
next-clear low address [] s f t n = refl
next-clear low address (r ∷ rs) (a, b, c, s) f t n =
    let z : ltb 0 (suc (length rs)) ≡ true = ground arith in
    let n' : address ≤ r.start = n z in let t' = t r.start in ground (arith, sat-frame address f)

pub previous-clear :
    (low address : ℕ) (p : FreeRange) (ys : List FreeRange)
    → IsSorted low (p ∷ ys)
    → IsTaken (p ∷ ys) address
    → p.start < address
    → ltb address (free_end p) ≡ false
unfolding covers
previous-clear low address p ys (a, b, c, s) t early =
    let t' = t address (ground arith) in ground (arith, free_end-stop p c)

pub or-right : {a : Bool} (b : Bool) {c : Bool} → a ≡ (b || c) → a ≡ false → c ≡ false
or-right {a} b {c} e f = ground arith

pub covers-tail :
    (p : FreeRange) (ys : List FreeRange) (x : ℕ) → covers (p ∷ ys) x ≡ false → covers ys x ≡ false
unfolding covers
covers-tail p ys x h = ground arith

-- The frame touches none of the ranges.
abbrev IsApart : List FreeRange → ℕ → Type 0
IsApart rs address = (covers rs (address - 1) ≡ false) × (covers rs (address + page_size) ≡ false)

pub next-IsApart :
    (low address : ℕ) (ys : List FreeRange)
    → IsSorted low ys
    → IsFrame address
    → IsTaken ys address
    → (ltb 0 (length ys) ≡ true → address ≤ next_start ys)
    → touches_next ys address ≡ false
    → IsApart ys address
unfolding covers
next-IsApart low address [] s f t n e = (refl, refl)
next-IsApart low address (r ∷ rs) (a, b, c, s) f t n e =
    let z : ltb 0 (suc (length rs)) ≡ true = ground arith in
    let n' : address ≤ r.start = n z in
    let t' = t r.start in
    let far : address + page_size < r.start = ground (arith, sat-frame address f) in
    let s' : IsSorted r.start (r ∷ rs) = (omega arith, b, c, s) in
    (
      covers-below r.start (r ∷ rs) (address - 1) s' (omega arith),
      covers-below r.start (r ∷ rs) (address + page_size) s' (omega arith),
    )

pub previous-ends :
    (low address : ℕ) (p : FreeRange) (ys : List FreeRange)
    → IsSorted low (p ∷ ys)
    → ltb address (free_end p) ≡ false
    → (free_end p == address) ≡ false
    → stop p < address
previous-ends low address p ys (a, b, c, s) g e = ground (arith, free_end-stop p c)

pub covers-skip :
    (zs : List FreeRange) (p : FreeRange) (ys : List FreeRange) (x : ℕ)
    → IsSorted 0 (zs ++ p ∷ ys)
    → stop p ≤ x
    → covers ys x ≡ false
    → covers (zs ++ p ∷ ys) x ≡ false
unfolding covers
covers-skip zs p ys x s le e =
    let (a, b, c, _) = IsSorted-right 0 zs (p ∷ ys) s in
    let e1 = covers-append zs (p ∷ ys) x in
    let e2 = covers-above 0 zs x (IsSorted-left 0 zs (p ∷ ys) s) (omega arith) in
    ground (arith, e1, e2)
