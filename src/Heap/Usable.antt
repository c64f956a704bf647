-- ===== src/Heap/Usable.antt =====
-- src/memory.rs: what a reservation leaves of the usable ranges.
use agnost_os.Base.{
  ℕ, ◌+◌, ◌-◌, ◌≤◌, ◌<◌, ◌≡◌, refl, min, max, Bool, true, false, not, ◌&&◌, ◌||◌, List, [], ◌∷◌,
  ◌++◌, arith, leb, ◌==◌, Bool-cases, inl, inr, ok, All, u64_max, leb→lt,
}
use mathlib.Core.List.{append_assoc}
use agnost_os.Memory.{MemoryRange, MemoryKind, Snapshot, range_end, reserve_range}
use agnost_os.Memory.Pieces.{
  IsRange, between, kept, pieces, left, middle, right, overlap_start, overlap_end,
}
use agnost_os.Memory.Reserve.{
  IsMap, rewritten, reserve_loop-ok, reserve_range-ok, reserve_range_lem,
}
use agnost_os.Frame.{is_usable}
use agnost_os.Frame.Boot.{IsOrdered, usable_in}

pub IsOrdered-lower :
    (low low' : ℕ) (s : Snapshot) → low' ≤ low → IsOrdered low s → IsOrdered low' s
IsOrdered-lower low low' [] le h = tt
IsOrdered-lower low low' (r ∷ rs) le h = elim (Bool-cases (is_usable r.kind)) [
  | inl usable ↦ let (a, b, c) = rw usable at h in rw usable (omega arith, b, c)
  | inr other ↦ let h' = rw other at h in rw other (IsOrdered-lower low low' rs le h')
]

IsOrdered-kept :
    (low : ℕ) (v : MemoryRange) (rest : Snapshot)
    → low ≤ v.start
    → v.start + v.length < u64_max
    → IsOrdered (v.start + v.length) rest
    → IsOrdered low (kept v ++ rest)
IsOrdered-kept low v rest le lt h =
    let lower = IsOrdered-lower (v.start + v.length) low rest (omega arith) h in
    elim (Bool-cases (v.length == 0)) [
      | inl empty ↦ rw empty lower
      | inr full ↦ rw full (elim (Bool-cases (is_usable v.kind)) [
        | inl usable ↦ rw usable (le, lt, h)
        | inr other ↦ rw other lower
      ])
    ]

IsOrdered-kept_other :
    (low : ℕ) (v : MemoryRange) (rest : Snapshot)
    → is_usable v.kind ≡ false
    → IsOrdered low rest
    → IsOrdered low (kept v ++ rest)
IsOrdered-kept_other low v rest other h = elim (Bool-cases (v.length == 0)) [
  | inl empty ↦ rw empty h
  | inr full ↦ rw (full, other) h
]

pub usable_in-append :
    (xs ys : Snapshot) (x : ℕ) → usable_in (xs ++ ys) x ≡ (usable_in xs x || usable_in ys x)
unfolding usable_in
usable_in-append [] ys x = refl
usable_in-append (r ∷ rs) ys x = ground (arith, usable_in-append rs ys x)

usable_in-kept :
    (v : MemoryRange) (rest : Snapshot) (x : ℕ)
    → usable_in (kept v ++ rest) x
      ≡ ((is_usable v.kind && between v.start (v.start + v.length) x) || usable_in rest x)
unfolding usable_in
usable_in-kept v rest x = ground arith

usable_in-kept_last :
    (v : MemoryRange) (x : ℕ)
    → usable_in (kept v) x ≡ (is_usable v.kind && between v.start (v.start + v.length) x)
unfolding usable_in
usable_in-kept_last v x = ground arith

-- Of three pieces in a row of which the middle one is not usable, the outer ones are left.
outer_pieces :
    (s e rs re x : ℕ) (u : Bool)
    → max s rs < min e re
    → ((u && between rs (rs + (max s rs - rs)) x)
        || ((false && between (max s rs) (max s rs + (min e re - max s rs)) x)
            || (u && between (min e re) (min e re + (re - min e re)) x)))
      ≡ ((u && between rs re x) && not (between s e x))
outer_pieces s e rs re x u h = ground arith

range_end-IsRange : (r : MemoryRange) → IsRange r → range_end r ≡ r.start + r.length
range_end-IsRange r v = ground arith

module _ (start end : ℕ) (kind : MemoryKind) (other : is_usable kind ≡ false) where
  IsOrdered-pieces :
      (low : ℕ) (r : MemoryRange) (rest : Snapshot)
      → IsRange r
      → is_usable r.kind ≡ true
      → low ≤ r.start
      → r.start + r.length < u64_max
      → IsOrdered (r.start + r.length) rest
      → IsOrdered low (pieces start end kind r ++ rest)
  unfolding pieces
  IsOrdered-pieces low r rest v usable le lt k =
      let e = range_end-IsRange r v in
      elim (Bool-cases (leb (overlap_end start end kind r) (overlap_start start end kind r))) [
        | inl apart ↦ rw (apart, usable) (le, lt, k)
        | inr meet ↦
            let l = leb→lt (overlap_end start end kind r) (overlap_start start end kind r) meet in
            rw
              (
                meet,
                append_assoc (kept (left start end kind r))
                    (kept (middle start end kind r) ++ kept (right start end kind r)) rest,
                append_assoc (kept (middle start end kind r)) (kept (right start end kind r)) rest,
              )
              (IsOrdered-kept low (left start end kind r) _ le (omega arith) (
                IsOrdered-kept_other _ (middle start end kind r) _ other (
                  IsOrdered-kept _ (right start end kind r) rest (omega arith) (omega arith)
                    (IsOrdered-lower (r.start + r.length) _ rest (omega arith) k))))
      ]

  IsOrdered-pieces_other :
      (low : ℕ) (r : MemoryRange) (rest : Snapshot)
      → is_usable r.kind ≡ false
      → IsOrdered low rest
      → IsOrdered low (pieces start end kind r ++ rest)
  unfolding pieces
  IsOrdered-pieces_other low r rest unusable k =
      elim (Bool-cases (leb (overlap_end start end kind r) (overlap_start start end kind r))) [
        | inl apart ↦ rw (apart, unusable) k
        | inr meet ↦
            rw
              (
                meet,
                append_assoc (kept (left start end kind r))
                    (kept (middle start end kind r) ++ kept (right start end kind r)) rest,
                append_assoc (kept (middle start end kind r)) (kept (right start end kind r)) rest,
              )
              (IsOrdered-kept_other low (left start end kind r) _ unusable (
                IsOrdered-kept_other low (middle start end kind r) _ other
                  (IsOrdered-kept_other low (right start end kind r) rest unusable k)))
      ]

  IsOrdered-rewritten :
      (low : ℕ) (old : List MemoryRange)
      → All IsRange old
      → IsOrdered low old
      → IsOrdered low (rewritten start end kind old)
  unfolding rewritten
  IsOrdered-rewritten low [] v h = tt
  IsOrdered-rewritten low (r ∷ rs) (v, vs) h = elim (Bool-cases (is_usable r.kind)) [
    | inl usable ↦
        let (a, b, c) = rw usable at h in
        IsOrdered-pieces low r (rewritten start end kind rs) v usable a b
          (IsOrdered-rewritten (r.start + r.length) rs vs c)
    | inr unusable ↦
        let h' = rw unusable at h in
        IsOrdered-pieces_other low r (rewritten start end kind rs) unusable
          (IsOrdered-rewritten low rs vs h')
  ]

  usable_in-pieces :
      (r : MemoryRange) (x : ℕ)
      → IsRange r
      → usable_in (pieces start end kind r) x
        ≡ ((is_usable r.kind && between r.start (range_end r) x) && not (between start end x))
  unfolding pieces usable_in
  usable_in-pieces r x v =
      elim (Bool-cases (leb (overlap_end start end kind r) (overlap_start start end kind r))) [
        | inl apart ↦ ground arith
        | inr meet ↦
            let l = leb→lt (overlap_end start end kind r) (overlap_start start end kind r) meet in
            rw
              (
                meet,
                usable_in-kept (left start end kind r)
                    (kept (middle start end kind r) ++ kept (right start end kind r)) x,
                usable_in-kept (middle start end kind r) (kept (right start end kind r)) x,
                usable_in-kept_last (right start end kind r) x,
                other,
              )
              (outer_pieces start end r.start (range_end r) x (is_usable r.kind) l)
      ]

  usable_in-rewritten :
      (old : List MemoryRange) (x : ℕ)
      → All IsRange old
      → usable_in (rewritten start end kind old) x ≡ (usable_in old x && not (between start end x))
  unfolding rewritten usable_in
  usable_in-rewritten [] x h = refl
  usable_in-rewritten (r ∷ rs) x (v, vs) =
      let ih = usable_in-rewritten rs x vs in
      let p = usable_in-pieces r x v in
      let e = range_end-IsRange r v in
      let a = usable_in-append (pieces start end kind r) (rewritten start end kind rs) x in
      ground arith

-- An accepted reservation that does not make memory usable takes its addresses from the usable
-- ranges, and leaves these in order.
pub reserve_range-IsOrdered :
    (s : Snapshot) (start len : ℕ) (kind : MemoryKind) {s' : Snapshot}
    → is_usable kind ≡ false
    → IsMap s
    → IsOrdered 0 s
    → reserve_range s start len kind ≡ (ok tt, s')
    → IsMap s'
      × IsOrdered 0 s'
      × ((x : ℕ) → usable_in s' x ≡ (usable_in s x && not (between start (start + len) x)))
reserve_range-IsOrdered s start len kind {s'} other v o h =
    let (pos, fits, e) = reserve_range-ok s start len kind h in
    let (eq, _) = reserve_loop-ok start (start + len) kind s [] false e in
    let (m, _) = reserve_range_lem s start len kind v h in
    (
      m,
      rw eq (IsOrdered-rewritten start (start + len) kind other 0 s v.ranges o),
      λ x. rw eq (usable_in-rewritten start (start + len) kind other s x v.ranges),
    )
