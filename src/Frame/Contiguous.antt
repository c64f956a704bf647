-- ===== src/Frame/Contiguous.antt =====
-- `FrameAllocator::allocate_contiguous` and `largest_free_frames`: which run of frames is handed out.
use agnost_os.Base.{
  ℕ, ◌+◌, ◌*◌, ◌≤◌, ◌<◌, ◌≡◌, refl, ap, ◌&&◌, none, some, List, [], ◌∷◌, ◌++◌, arith, leb, ◌==◌,
  Bool-cases, inl, inr, ◌⊎◌, ok, err, length, get_or, All, checked,
}
use mathlib.Core.Path.{subst}
use agnost_os.Frame.{
  FreeRange, FrameAllocator, page_size, no_range, allocate_contiguous, largest_from, max_frames,
  largest_free_frames, out_of_memory,
}
use agnost_os.Frame.Table.{get_or-append}
use agnost_os.Frame.Invariant.{IsAllocator}
use agnost_os.Frame.Allocate.{IsAllocated, take_frames_lem, take_frames-IsAllocated}

-- Every range has at most `most` frames, or too few.
abbrev IsLargest : ℕ → ℕ → List FreeRange → Type 0
IsLargest frames most rs = All (λ r. (r.frames < frames) ⊎ (r.frames ≤ most)) rs

-- The result of `largest_from` on a table of which `base` ranges came before.
abbrev IsFound : ℕ → ℕ → List FreeRange → ℕ → ℕ → Type 0
IsFound base frames rs i most =
    (xs : List FreeRange) × (r : FreeRange) × (ys : List FreeRange) × (rs ≡ xs ++ r ∷ ys)
    × (i ≡ base + length xs)
    × (most ≡ r.frames)
    × (frames ≤ r.frames)

IsFound-cons :
    (base frames : ℕ) (r : FreeRange) (rs : List FreeRange) (i most : ℕ)
    → IsFound (base + 1) frames rs i most
    → IsFound base frames (r ∷ rs) i most
IsFound-cons base frames r rs i most (xs, q, ys, e, n, m, le) =
    (r ∷ xs, q, ys, ap (λ z. r ∷ z) e, omega (arith, n), m, le)

-- A search that begins with a best range ends with it or with a later one that is no smaller.
largest_from-some :
    (rs : List FreeRange) (base frames i most : ℕ)
    → (j : ℕ) × (m : ℕ) × (largest_from rs base frames (some (i, most)) ≡ some (j, m))
      × (most ≤ m)
      × IsLargest frames m rs
      × (((j ≡ i) × (m ≡ most)) ⊎ IsFound base frames rs j m)
unfolding largest_from
largest_from-some [] base frames i most = (i, most, refl, omega arith, tt, inl (refl, refl))
largest_from-some (r ∷ rs) base frames i most =
    elim (Bool-cases (leb frames r.frames && leb most r.frames)) [
      | inl better ↦
          let (j, m, e, le, l, w) = largest_from-some rs (base + 1) frames base r.frames in
          (
            j,
            m,
            rw better e,
            ground arith,
            (inr le, l),
            elim w [
              | inl (ej, em) ↦ inr ([], r, rs, refl, omega (arith, ej), em, ground arith)
              | inr f ↦ inr (IsFound-cons base frames r rs j m f)
            ],
          )
      | inr worse ↦
          let (j, m, e, le, l, w) = largest_from-some rs (base + 1) frames i most in
          (
            j,
            m,
            rw worse e,
            le,
            (ground arith, l),
            elim w [ inl same ↦ inl same | inr f ↦ inr (IsFound-cons base frames r rs j m f) ],
          )
    ]

-- A search from nothing fails if every range is too small, and finds a largest one otherwise.
largest_from-none :
    (rs : List FreeRange) (base frames : ℕ)
    → ((largest_from rs base frames none ≡ none) × All (λ r. r.frames < frames) rs)
      ⊎ ((j : ℕ) × (m : ℕ) × (largest_from rs base frames none ≡ some (j, m))
          × IsLargest frames m rs
          × IsFound base frames rs j m)
unfolding largest_from
largest_from-none [] base frames = inl (refl, tt)
largest_from-none (r ∷ rs) base frames = elim (Bool-cases (leb frames r.frames)) [
  | inl fits ↦
      let (j, m, e, le, l, w) = largest_from-some rs (base + 1) frames base r.frames in
      inr (
        j,
        m,
        rw fits e,
        (inr le, l),
        elim w [
          | inl (ej, em) ↦ ([], r, rs, refl, omega (arith, ej), em, ground arith)
          | inr f ↦ IsFound-cons base frames r rs j m f
        ],
      )
  | inr small ↦ elim (largest_from-none rs (base + 1) frames) [
    | inl (e, a) ↦ inl (rw small e, (ground arith, a))
    | inr (j, m, e, l, f) ↦
        inr (j, m, rw small e, (ground arith, l), IsFound-cons base frames r rs j m f)
  ]
]

max_frames-small :
    (rs : List FreeRange) (frames : ℕ)
    → 0 < frames
    → All (λ r. r.frames < frames) rs
    → max_frames rs < frames
unfolding max_frames
max_frames-small [] frames pos a = omega arith
max_frames-small (r ∷ rs) frames pos (b, a) =
    let c = max_frames-small rs frames pos a in ground arith

max_frames-append :
    (xs : List FreeRange) (r : FreeRange) (ys : List FreeRange)
    → r.frames ≤ max_frames (xs ++ r ∷ ys)
unfolding max_frames
max_frames-append [] r ys = ground arith
max_frames-append (x ∷ xs) r ys = let c = max_frames-append xs r ys in ground arith

-- A request for a run of frames fails exactly when it asks for none or for more than
-- `largest_free_frames`, and then changes nothing; otherwise it is served with a run of frames that
-- were all free.
pub allocate_contiguous_lem :
    (s : FrameAllocator) (frames : ℕ)
    → IsAllocator s
    → (((frames ≡ 0) ⊎ (largest_free_frames s < frames))
        × (allocate_contiguous s frames ≡ (err out_of_memory, s)))
      ⊎ ((0 < frames)
          × (frames ≤ largest_free_frames s)
          × ((start : ℕ) × (s' : FrameAllocator) × (allocate_contiguous s frames
                ≡ (ok (record { start = start; length = frames * page_size }), s'))
              × IsAllocated s s' start (frames * page_size)))
unfolding allocate_contiguous largest_free_frames
allocate_contiguous_lem s frames v = elim (Bool-cases (frames == 0)) [
  | inl zero_frames ↦ inl (inl (ground arith), rw (allocate_contiguous, zero_frames) refl)
  | inr some_frames ↦ elim (largest_from-none s.ranges 0 frames) [
    | inl (e, a) ↦ inl (
      inr (max_frames-small s.ranges frames (ground arith) a),
      rw (allocate_contiguous, some_frames, e) refl,
    )
    | inr (j, m, e, l, (xs, r, ys, w, ej, em, le)) ↦
        let (b, _) = take_frames_lem s.ranges xs r ys frames w v.free_sorted (ground arith) le in
        let g : get_or s.ranges (length xs) no_range ≡ r = rw w (get_or-append xs r ys no_range) in
        let c1 : checked (frames * page_size) ≡ some (frames * page_size) = ground arith in
        let c2 : checked (r.start + frames * page_size) ≡ some (r.start + frames * page_size) =
          ground arith in
        let i : j ≡ length xs = omega (arith, ej) in
        let e' = subst (λ z. largest_from s.ranges 0 frames none ≡ some (z, m)) i e in
        let most : frames ≤ max_frames s.ranges = rw w (omega (arith, max_frames-append xs r ys)) in
        inr (
          ground arith,
          most,
          (
            r.start,
            _,
            rw (allocate_contiguous, some_frames, e', c1, g, c2, g) refl,
            take_frames-IsAllocated s xs r ys frames v w (ground arith) le,
          ),
        )
  ]
]
