-- ===== src/Memory/Pieces.antt =====
-- What the loop of `reserve_range` puts in the place of one range, and that it covers the same
-- addresses.
use agnost_os.Base.{
  ℕ, ◌+◌, ◌-◌, ◌≤◌, ◌<◌, min, max, ◌≡◌, refl, Bool, true, false, not, ◌&&◌, ◌||◌, Option, none,
  some, [], ◌∷◌, ◌++◌, arith, ltb, leb, ◌==◌, if◌then◌else◌, Bool-cases, inl, inr, leb→lt, ok,
  >>=-eq-ok, All, u64_max,
}
use mathlib.Core.List.{append_assoc, append-nil}
use agnost_os.Memory.{
  MemoryRange, MemoryKind, Snapshot, range_end, contains, kind_at, push_range, reserve_one,
}

-- A range that is not empty and does not run past the address space.
abbrev pub IsRange : MemoryRange → Type 0
IsRange r = (0 < r.length) × (r.start + r.length ≤ u64_max)

-- An address lies between two others.
abbrev pub between : ℕ → ℕ → ℕ → Bool
between start end address = leb start address && ltb address end

pub kind_at-append :
    (xs ys : Snapshot) (address : ℕ)
    → kind_at (xs ++ ys) address ≡ elim (kind_at xs address) as (λ _. Option MemoryKind) [
      | some k ↦ some k
      | none ↦ kind_at ys address
    ]
unfolding kind_at
kind_at-append [] ys address = refl
kind_at-append (r ∷ rs) ys address = ground (arith, kind_at-append rs ys address)

-- A value as `push` adds it: not at all if it is empty.
abbrev pub kept : MemoryRange → Snapshot
kept value = if value.length == 0 then [] else value ∷ []

kind_at-kept :
    (v : MemoryRange) (rest : Snapshot) (address : ℕ)
    → v.start + v.length ≤ u64_max
    → kind_at (kept v ++ rest) address
      ≡ (if between v.start (v.start + v.length) address then some v.kind else kind_at rest address)
unfolding kind_at
kind_at-kept v rest address h = ground arith

kind_at-kept_last :
    (v : MemoryRange) (address : ℕ)
    → v.start + v.length ≤ u64_max
    → kind_at (kept v) address
      ≡ (if between v.start (v.start + v.length) address then some v.kind else none)
unfolding kind_at
kind_at-kept_last v address h = ground arith

-- Three pieces in a row have the kind of the whole, but for the middle.
three_pieces :
    (s e rs re a : ℕ) (k new : MemoryKind)
    → max s rs < min e re
    → (if between rs (rs + (max s rs - rs)) a
        then some k
        else if between (max s rs) (max s rs + (min e re - max s rs)) a
        then some new
        else if between (min e re) (min e re + (re - min e re)) a
        then some k
        else none)
      ≡ (if between rs re a then some (if between s e a then new else k) else none)
three_pieces s e rs re a k new h = ground arith

or-false : (b : Bool) → (b || false) ≡ b
or-false true = refl
or-false false = refl

or-true : (b : Bool) → (b || true) ≡ true
or-true true = refl
or-true false = refl

push_range-ok :
    (replacement : Snapshot) (value : MemoryRange) {out : Snapshot}
    → push_range replacement value ≡ ok out
    → out ≡ replacement ++ kept value
unfolding push_range
push_range-ok replacement value h = ground (arith, append-nil replacement)

three_pushes :
    (replacement : Snapshot) (a b c : MemoryRange) {l m n : Snapshot}
    → push_range replacement a ≡ ok l
    → push_range l b ≡ ok m
    → push_range m c ≡ ok n
    → n ≡ replacement ++ (kept a ++ (kept b ++ kept c))
three_pushes replacement a b c {l} {m} {n} e f g =
    let e' = push_range-ok replacement a e in
    let f' = push_range-ok l b f in
    let g' = push_range-ok m c g in
    rw (g', f', e')
      (cc (
        append_assoc (replacement ++ kept a) (kept b) (kept c),
        append_assoc replacement (kept a) (kept b ++ kept c),
      ))

module _ (start end : ℕ) (kind : MemoryKind) (r : MemoryRange) where
  abbrev pub overlap_start : ℕ
  overlap_start = max start r.start

  abbrev pub overlap_end : ℕ
  overlap_end = min end (range_end r)

  abbrev pub overlaps : Bool
  overlaps = not (leb overlap_end overlap_start)

  abbrev pub left : MemoryRange
  left = record r { length = overlap_start - r.start }

  abbrev pub middle : MemoryRange
  middle = record r { start = overlap_start; length = overlap_end - overlap_start; kind = kind }

  abbrev pub right : MemoryRange
  right = record r { start = overlap_end; length = range_end r - overlap_end }

  unfoldable pub pieces : Snapshot
  pieces =
      if leb overlap_end overlap_start then r ∷ [] else kept left ++ (kept middle ++ kept right)

  pub reserve_one-ok :
      (replacement : Snapshot) (overlapped : Bool) {out : Snapshot} {overlapped' : Bool}
      → reserve_one start end kind r (replacement, overlapped) ≡ ok (out, overlapped')
      → (out ≡ replacement ++ pieces) × (overlapped' ≡ (overlapped || overlaps))
  unfolding reserve_one pieces
  reserve_one-ok replacement overlapped {out} {overlapped'} h =
      elim (Bool-cases (leb overlap_end overlap_start)) [
        | inl apart ↦ ground (arith, or-false overlapped)
        | inr meet ↦
            let h1 = rw (meet, reserve_one) at h in
            let (l, el, h2) = >>=-eq-ok (push_range replacement left) _ h1 in
            let (m, em, h3) = >>=-eq-ok (push_range l middle) _ h2 in
            let (n, en, h4) = >>=-eq-ok (push_range m right) _ h3 in
            let e = three_pushes replacement left middle right el em en in
            rw meet (cc, cc (or-true overlapped))
      ]

  pub pieces-IsRange : IsRange r → start ≤ end → All IsRange pieces
  unfolding pieces
  pieces-IsRange v le = ground arith

  -- The pieces cover the range's addresses; between `start` and `end` they have the new kind.
  pub kind_at-pieces :
      (address : ℕ)
      → IsRange r
      → kind_at pieces address ≡ (
          if contains r address
          then some (if between start end address then kind else r.kind)
          else none)
  unfolding pieces kind_at
  kind_at-pieces address v = elim (Bool-cases (leb overlap_end overlap_start)) [
    | inl apart ↦ ground arith
    | inr meet ↦
        let l = leb→lt overlap_end overlap_start meet in
        rw
          (
            meet,
            kind_at-kept left (kept middle ++ kept right) address (ground arith),
            kind_at-kept middle (kept right) address (ground arith),
            kind_at-kept_last right address (ground arith),
          )
          (three_pieces start end r.start (range_end r) address r.kind kind l)
  ]
