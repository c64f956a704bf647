-- ===== src/Frame/Freed.antt =====
-- `FrameAllocator::release`: a frame that is put back beside the ranges that it touches.
use agnost_os.Base.{
  ℕ, suc, ◌+◌, ◌≤◌, ◌<◌, ◌≡◌, refl, sym, ap, Bool, true, false, ◌&&◌, ◌||◌, List, [], ◌∷◌, ◌++◌,
  arith, ltb, ◌==◌, if◌then◌else◌, Bool-cases, inl, inr, Result, ok, err, err-ne-ok, length, get_or,
  set, saturating, u64_max,
}
use mathlib.Core.Path.{subst}
use agnost_os.Memory.Pieces.{between}
use agnost_os.Frame.{
  FreeRange, FrameError, free_end, page_size, no_range, remove_range, invalid_address,
  free_range_storage_full,
}
use agnost_os.Frame.Table.{free_after, free_first, prefix}
use agnost_os.Frame.Ranges.{
  stop, covers, sum_frames, IsSorted, last_stop, free_end-stop, covers-append, sum_frames-append,
  IsSorted-append, IsSorted-lower, covers-below, covers-above,
}

-- The ranges `out` are those of `ranges` and the frame at `address`, which was not free before.
pub record IsFreed (low address : ℕ) (ranges out : List FreeRange) : Type 0 where
  pub sorted : IsSorted low out
  pub sum : sum_frames out ≡ sum_frames ranges + 1
  pub added : (x : ℕ) → covers out x ≡ (covers ranges x || between address (address + page_size) x)
  pub was_taken : (x : ℕ) → between address (address + page_size) x ≡ true → covers ranges x ≡ false

-- The frame lies below the last address.
abbrev pub IsFrame : ℕ → Type 0
IsFrame address = address + page_size < u64_max

pub sat-frame :
    (address : ℕ) → IsFrame address → saturating (address + page_size) ≡ address + page_size
sat-frame address h = ground arith

-- The next range begins at the address or later, if there is one.
abbrev pub IsNext : ℕ → List FreeRange → Type 0
IsNext address ys = ltb 0 (length ys) ≡ true → address ≤ (get_or ys 0 no_range).start

abbrev frame_at : ℕ → FreeRange
frame_at address = record { start = address; frames = 1 }

module _ (low address : ℕ) (f : IsFrame address) where
  IsFreed-new :
      (ys : List FreeRange)
      → low ≤ address
      → IsSorted (address + page_size) ys
      → IsFreed low address ys (frame_at address ∷ ys)
  unfolding covers sum_frames
  IsFreed-new ys le s = record {
    sorted = (le, omega arith, omega arith, s);
    sum = omega arith;
    added = λ x. ground arith;
    was_taken = λ x i. covers-below (address + page_size) ys x s (ground arith);
  }

  IsFreed-first :
      (r : FreeRange) (rs : List FreeRange)
      → low ≤ address
      → address + page_size ≡ r.start
      → 0 < r.frames
      → stop r < u64_max
      → IsSorted (stop r) rs
      → IsFreed low address (r ∷ rs) (record { start = address; frames = r.frames + 1 } ∷ rs)
  unfolding covers sum_frames
  IsFreed-first r rs le e p m s = record {
    sorted = (le, omega arith, omega arith, IsSorted-lower (stop r) _ rs (omega arith) s);
    sum = omega arith;
    added = λ x. ground arith;
    was_taken = λ x i. let b = covers-below (stop r) rs x s (ground arith) in ground arith;
  }

  IsFreed-grow :
      (p : FreeRange) (ys : List FreeRange)
      → low ≤ p.start
      → stop p ≡ address
      → IsSorted (address + page_size) ys
      → IsFreed low address (p ∷ ys) (record { start = p.start; frames = p.frames + 1 } ∷ ys)
  unfolding covers sum_frames
  IsFreed-grow p ys le e s = record {
    sorted =
        (le, omega arith, omega arith, IsSorted-lower (address + page_size) _ ys (omega arith) s);
    sum = omega arith;
    added = λ x. ground arith;
    was_taken =
        λ x i. let b = covers-below (address + page_size) ys x s (ground arith) in ground arith;
  }

  IsFreed-merge :
      (p r : FreeRange) (rs : List FreeRange)
      → low ≤ p.start
      → stop p ≡ address
      → address + page_size ≡ r.start
      → stop r < u64_max
      → IsSorted (stop r) rs
      → IsFreed low address
          (p ∷ r ∷ rs)
          (record { start = p.start; frames = p.frames + 1 + r.frames } ∷ rs)
  unfolding covers sum_frames
  IsFreed-merge p r rs le e n m s = record {
    sorted = (le, omega arith, omega arith, IsSorted-lower (stop r) _ rs (omega arith) s);
    sum = omega arith;
    added = λ x. ground arith;
    was_taken = λ x i. let b = covers-below (stop r) rs x s (ground arith) in ground arith;
  }

  IsFreed-cons :
      (p : FreeRange) {ys out : List FreeRange}
      → low ≤ p.start
      → 0 < p.frames
      → stop p ≤ address
      → IsFreed (stop p) address ys out
      → IsFreed low address (p ∷ ys) (p ∷ out)
  unfolding covers sum_frames
  IsFreed-cons p le pos e h = record {
    sorted = (le, pos, omega arith, h.sorted);
    sum = omega (arith, h.sum);
    added = λ x. let a = h.added x in ground arith;
    was_taken = λ x i. let b = h.was_taken x i in ground arith;
  }

  pub free_first-ok :
      (ys : List FreeRange) (full : Bool) {out : List FreeRange}
      → IsSorted low ys
      → low ≤ address
      → IsNext address ys
      → free_first ys full address ≡ ok out
      → IsFreed low address ys out
  free_first-ok [] full s le n h = elim (Bool-cases full) [
    | inl yes_full ↦ let h' = rw yes_full at h in absurd (err-ne-ok h')
    | inr room ↦ let h' = rw room at h in subst (IsFreed low address []) (cc) (IsFreed-new [] le tt)
  ]
  free_first-ok (r ∷ rs) full (a, b, c, s) le n h =
      let z : ltb 0 (suc (length rs)) ≡ true = ground arith in
      elim (Bool-cases (ltb r.start (saturating (address + page_size)))) [
        | inl early ↦ let h' = rw (z, early) at h in absurd (err-ne-ok h')
        | inr late ↦ elim (Bool-cases (saturating (address + page_size) == r.start)) [
          | inl touch ↦
              let h' = rw (z, late, touch) at h in
              subst (IsFreed low address (r ∷ rs)) (cc) (IsFreed-first r rs le (ground arith) b c s)
          | inr apart ↦ elim (Bool-cases full) [
            | inl yes_full ↦ let h' = rw (z, late, apart, yes_full) at h in absurd (err-ne-ok h')
            | inr room ↦
                let h' = rw (z, late, apart, room) at h in
                subst (IsFreed low address (r ∷ rs)) (cc)
                  (IsFreed-new (r ∷ rs) le (ground arith, b, c, s))
          ]
        ]
      ]

prefix-three :
    (p : FreeRange) (full a b : Bool) (first new : List FreeRange)
    → prefix (p ∷ []) (
        if a
        then err invalid_address
        else if b
        then ok first
        else if full
        then err free_range_storage_full
        else ok new)
      ≡ (if a
          then err invalid_address
          else if b
          then ok (p ∷ first)
          else if full
          then err free_range_storage_full
          else ok (p ∷ new))
prefix-three p full a b first new = ground arith

pub prefix-ok :
    (xs : List FreeRange) (m : Result FrameError (List FreeRange)) {out : List FreeRange}
    → prefix xs m ≡ ok out
    → (ys : List FreeRange) × (m ≡ ok ys) × (out ≡ xs ++ ys)
prefix-ok xs (ok ys) h = (ys, refl, cc)
prefix-ok xs (err e) h = absurd (err-ne-ok h)

-- `free_after` beside a range that does not touch the frame.
free_first-cons :
    (p : FreeRange) (ys : List FreeRange) (full : Bool) (address : ℕ)
    → prefix (p ∷ []) (free_first ys full address) ≡ (
        let next = get_or ys 0 no_range in
        let has_next = ltb 0 (length ys) in
        if has_next && ltb next.start (saturating (address + page_size))
        then err invalid_address
        else if has_next && saturating (address + page_size) == next.start
        then ok (p ∷ set ys 0 (record { start = address; frames = next.frames + 1 }))
        else if full
        then err free_range_storage_full
        else ok (p ∷ record { start = address; frames = 1 } ∷ ys))
free_first-cons p ys full address =
    prefix-three p full
      (ltb 0 (length ys) && ltb (get_or ys 0 no_range).start (saturating (address + page_size)))
      (ltb 0 (length ys) && saturating (address + page_size) == (get_or ys 0 no_range).start)
      (set ys 0 (record { start = address; frames = (get_or ys 0 no_range).frames + 1 }))
      (record { start = address; frames = 1 } ∷ ys)

module _ (low address : ℕ) (f : IsFrame address) where
  -- `free_after` at a range that ends where the frame begins.
  free_after-touch :
      (p : FreeRange) (ys : List FreeRange) (full : Bool) {out : List FreeRange}
      → IsSorted low (p ∷ ys)
      → IsNext address ys
      → stop p ≡ address
      → (let next = get_or ys 0 no_range in
          let has_next = ltb 0 (length ys) in
          let grown : FreeRange = record p { frames = p.frames + 1 } in
          if has_next && ltb next.start (saturating (address + page_size))
          then err invalid_address
          else if has_next && free_end grown == next.start
          then ok (record grown { frames = grown.frames + next.frames } ∷ remove_range ys 0)
          else ok (grown ∷ ys))
        ≡ ok out
      → IsFreed low address (p ∷ ys) out
  unfolding remove_range
  free_after-touch p [] full (a, b, c, s) n t h =
      subst (IsFreed low address (p ∷ [])) (cc) (IsFreed-grow low address f p [] a t tt)
  free_after-touch p (r ∷ rs) full (a, b, c, (d, e, g, s)) n t h =
      let z : ltb 0 (suc (length rs)) ≡ true = ground arith in
      let grown : FreeRange = record p { frames = p.frames + 1 } in
      let m = free_end-stop grown (omega arith) in
      elim (Bool-cases (ltb r.start (saturating (address + page_size)))) [
        | inl early ↦ let h' = rw (z, early) at h in absurd (err-ne-ok h')
        | inr late ↦ elim (Bool-cases (free_end grown == r.start)) [
          | inl meet ↦
              let h' = rw (z, late, meet) at h in
              subst (IsFreed low address (p ∷ r ∷ rs)) (cc)
                (IsFreed-merge low address f p r rs a t (ground arith) g s)
          | inr apart ↦
              let h' = rw (z, late, apart) at h in
              subst (IsFreed low address (p ∷ r ∷ rs)) (cc)
                (IsFreed-grow low address f p (r ∷ rs) a t (ground arith, e, g, s))
        ]
      ]

  -- The same after a previous range that ends at the address or before.
  pub free_after-ok :
      (p : FreeRange) (ys : List FreeRange) (full : Bool) {out : List FreeRange}
      → IsSorted low (p ∷ ys)
      → IsNext address ys
      → free_after p ys full address ≡ ok out
      → IsFreed low address (p ∷ ys) out
  free_after-ok p ys full {out} (a, b, c, s) n h = elim (Bool-cases (ltb address (free_end p))) [
    | inl inside ↦ let h' = rw inside at h in absurd (err-ne-ok h')
    | inr past ↦ elim (Bool-cases (free_end p == address)) [
      | inr apart ↦
          let h' = rw (past, apart) at h in
          let e = free_first-cons p ys full address in
          let eq : prefix (p ∷ []) (free_first ys full address) ≡ ok out = cc in
          let (rest, g, o) = prefix-ok (p ∷ []) (free_first ys full address) eq in
          let le : stop p ≤ address = ground (arith, free_end-stop p c) in
          subst (IsFreed low address (p ∷ ys)) (sym o) (
            IsFreed-cons low address f p a b le (free_first-ok (stop p) address f ys full s le n g))
      | inl touch ↦
          let h' = rw (past, touch) at h in
          free_after-touch p ys full (a, b, c, s) n (ground (arith, free_end-stop p c)) h'
    ]
  ]

pub IsFreed-append :
    (low address : ℕ) (xs ys : List FreeRange) {out : List FreeRange}
    → IsSorted low xs
    → last_stop low xs ≤ address
    → IsFreed (last_stop low xs) address ys out
    → IsFreed low address (xs ++ ys) (xs ++ out)
IsFreed-append low address xs ys {out} s le h = record {
  sorted = IsSorted-append low xs out s h.sorted;
  sum = omega (arith, sum_frames-append xs ys, sum_frames-append xs out, h.sum);
  added = λ x.
      let a = h.added x in
      let b = covers-append xs ys x in let c = covers-append xs out x in ground arith;
  was_taken = λ x i.
      let a = h.was_taken x i in
      let b = covers-append xs ys x in
      let c = covers-above low xs x s (ground arith) in ground arith;
}

-- A list with an entry has a last one.
pub snoc-cases :
    (x : FreeRange) (xs : List FreeRange)
    → (ys : List FreeRange) × (y : FreeRange) × (x ∷ xs ≡ ys ++ y ∷ [])
snoc-cases x [] = ([], x, refl)
snoc-cases x (z ∷ zs) = let (ys, y, e) = snoc-cases z zs in (x ∷ ys, y, ap (λ ws. x ∷ ws) e)
