-- ===== src/Memory/Errors.antt =====
-- `MemoryMapSnapshot::reserve_range`: when a reservation is accepted and when it is refused.
use agnost_os.Base.{
  ℕ, ◌+◌, ◌-◌, ◌*◌, ◌≤◌, ◌<◌, min, max, ◌≡◌, ◌≢◌, refl, Bool, true, false, ◌||◌, none, some, List,
  [], ◌∷◌, ◌++◌, arith, leb, ◌==◌, Bool-cases, inl, inr, ◌⊎◌, Result, ok, err, ◌>>=◌, Result-cases,
  length, length-append, u64_max, checked,
}
use mathlib.Core.List.{append-nil}
use agnost_os.Memory.{
  MemoryRange, MemoryKind, MemoryMapError, Snapshot, range_end, kind_at, push_range, reserve_one,
  reserve_loop, reserve_range, max_memory_ranges, range_not_found, too_many_ranges,
}
use agnost_os.Memory.Pieces.{overlaps, kept}
use agnost_os.Memory.Reserve.{any_overlaps, reserve_loop-ok}

push_range-room :
    (s : Snapshot) (v : MemoryRange)
    → length s < max_memory_ranges
    → (out : Snapshot) × (push_range s v ≡ ok out) × (length out ≤ length s + 1)
unfolding push_range
push_range-room s v room = (
  s ++ kept v,
  ground (arith, append-nil s),
  ground (arith, append-nil s, length-append s (v ∷ [])),
)

module _ (start end : ℕ) (kind : MemoryKind) where
  reserve_one-room :
      (r : MemoryRange) (s : Snapshot) (o : Bool)
      → length s + 3 ≤ max_memory_ranges
      → (out : Snapshot) × (o' : Bool) × (reserve_one start end kind r (s, o) ≡ ok (out, o'))
        × (length out ≤ length s + 3)
  unfolding reserve_one
  reserve_one-room r s o room =
      elim (Bool-cases (leb (min end (range_end r)) (max start r.start))) [
        | inl apart ↦ (s ++ r ∷ [], o, ground arith, omega (arith, length-append s (r ∷ [])))
        | inr meet ↦
            let (l, el, nl) =
              push_range-room s (record r { length = max start r.start - r.start }) (omega arith) in
            let (m, em, nm) =
              push_range-room l
                (record r {
                  start = max start r.start;
                  length = min end (range_end r) - max start r.start;
                  kind = kind;
                })
                (omega arith) in
            let (n, en, nn) =
              push_range-room m
                (record r {
                  start = min end (range_end r);
                  length = range_end r - min end (range_end r);
                })
                (omega arith) in
            (n, true, rw (meet, el, em, en) refl, omega arith)
      ]

  reserve_loop-room :
      (old : List MemoryRange) (s : Snapshot) (o : Bool)
      → length s + 3 * length old ≤ max_memory_ranges
      → (out : Snapshot) × (o' : Bool) × (reserve_loop start end kind old (s, o) ≡ ok (out, o'))
  unfolding reserve_loop
  reserve_loop-room [] s o room = (s, o, refl)
  reserve_loop-room (r ∷ old) s o room =
      let (mid, o', e, n) = reserve_one-room r s o (omega arith) in
      let (out, o'', e') = reserve_loop-room old mid o' (omega arith) in (out, o'', rw e e')

-- Some address from `start` to below `end` is described by the map.
abbrev pub IsMet : ℕ → ℕ → Snapshot → Type 0
IsMet start end s = (address : ℕ) × (start ≤ address) × (address < end) × (kind_at s address ≢ none)

-- No address from `start` to below `end` is described by the map.
abbrev pub IsMissed : ℕ → ℕ → Snapshot → Type 0
IsMissed start end s = (address : ℕ) → start ≤ address → address < end → kind_at s address ≡ none

module _ (start end : ℕ) (kind : MemoryKind) where
  any_overlaps-IsMet : (s : Snapshot) → any_overlaps start end kind s ≡ true → IsMet start end s
  unfolding any_overlaps kind_at
  any_overlaps-IsMet [] h = cc
  any_overlaps-IsMet (r ∷ rs) h = elim (Bool-cases (overlaps start end kind r)) [
    | inl met ↦ (max start r.start, omega arith, ground arith, ground arith)
    | inr missed ↦
        let h' : any_overlaps start end kind rs ≡ true = ground arith in
        let (address, a, b, ne) = any_overlaps-IsMet rs h' in (address, a, b, ground arith)
  ]

  any_overlaps-IsMissed :
      (s : Snapshot) → any_overlaps start end kind s ≡ false → IsMissed start end s
  unfolding any_overlaps kind_at
  any_overlaps-IsMissed [] h address a b = refl
  any_overlaps-IsMissed (r ∷ rs) h address a b =
      let h' : any_overlaps start end kind rs ≡ false = ground arith in
      let e : kind_at rs address ≡ none = any_overlaps-IsMissed rs h' address a b in ground arith

push_range-err :
    (s : Snapshot) (v : MemoryRange) {e : MemoryMapError}
    → push_range s v ≡ err e
    → e ≡ too_many_ranges
unfolding push_range
push_range-err s v h = ground arith

-- A chain that fails has failed in its first step or after it.
>>=-eq-err :
    {A B : Type 0} (m : Result MemoryMapError A) (f : A → Result MemoryMapError B)
    {e : MemoryMapError}
    → (m >>= f) ≡ err e
    → (m ≡ err e) ⊎ ((a : A) × (f a ≡ err e))
>>=-eq-err (ok a) f h = inr (a, h)
>>=-eq-err (err e) f h = inl (cc)

module _ (start end : ℕ) (kind : MemoryKind) where
  reserve_one-err :
      (r : MemoryRange) (s : Snapshot) (o : Bool) {e : MemoryMapError}
      → reserve_one start end kind r (s, o) ≡ err e
      → e ≡ too_many_ranges
  unfolding reserve_one
  reserve_one-err r s o h = elim (Bool-cases (leb (min end (range_end r)) (max start r.start))) [
    | inl apart ↦ ground arith
    | inr meet ↦
        let h1 = rw (meet, reserve_one) at h in
        elim (>>=-eq-err (push_range s _) _ h1) [
          | inl e1 ↦ push_range-err s _ e1
          | inr (l, h2) ↦ elim (>>=-eq-err (push_range l _) _ h2) [
            | inl e2 ↦ push_range-err l _ e2
            | inr (m, h3) ↦ elim (>>=-eq-err (push_range m _) _ h3) [
              | inl e3 ↦ push_range-err m _ e3
              | inr (n, h4) ↦ cc
            ]
          ]
        ]
  ]

  reserve_loop-err :
      (old : List MemoryRange) (s : Snapshot) (o : Bool) {e : MemoryMapError}
      → reserve_loop start end kind old (s, o) ≡ err e
      → e ≡ too_many_ranges
  unfolding reserve_loop
  reserve_loop-err [] s o h = cc
  reserve_loop-err (r ∷ old) s o h = elim (>>=-eq-err (reserve_one start end kind r (s, o)) _ h) [
    | inl e1 ↦ reserve_one-err r s o e1
    | inr ((mid, o'), h') ↦ reserve_loop-err old mid o' h'
  ]

-- A reservation that is not found meets no address of the map.
pub reserve_range-IsMissed :
    (s : Snapshot) (start len : ℕ) (kind : MemoryKind) {s' : Snapshot}
    → reserve_range s start len kind ≡ (err range_not_found, s')
    → IsMissed start (start + len) s
unfolding reserve_range
reserve_range-IsMissed s start len kind h =
    elim (Result-cases (reserve_loop start (start + len) kind s ([], false))) [
      | inl ((out, o), e) ↦
          let (_, eo) = reserve_loop-ok start (start + len) kind s [] false e in
          let no : o ≡ false = ground arith in any_overlaps-IsMissed start (start + len) kind s (cc)
      | inr (x, e) ↦ let e' = reserve_loop-err start (start + len) kind s [] false e in ground arith
    ]

-- A reservation of a range that is not empty, lies below 2^64 and finds room in the table (three
-- entries for each range is enough) fails in one case only: it is refused as not found exactly when
-- the map describes no address of the range.
pub reserve_range-found :
    (s : Snapshot) (start len : ℕ) (kind : MemoryKind)
    → 0 < len
    → start + len ≤ u64_max
    → 3 * length s ≤ max_memory_ranges
    → ((s' : Snapshot) × (reserve_range s start len kind ≡ (ok tt, s'))
        × IsMet start (start + len) s)
      ⊎ ((reserve_range s start len kind ≡ (err range_not_found, s))
          × IsMissed start (start + len) s)
unfolding reserve_range
reserve_range-found s start len kind pos fits room =
    let (out, o, e) = reserve_loop-room start (start + len) kind s [] false (omega arith) in
    let (_, eo) = reserve_loop-ok start (start + len) kind s [] false e in
    let c : checked (start + len) ≡ some (start + len) = ground arith in
    let t : (len == 0 || leb (start + len) start) ≡ false = ground arith in
    elim (Bool-cases o) [
      | inl met ↦ inl (
        out,
        rw (reserve_range, c, t, e, met) refl,
        any_overlaps-IsMet start (start + len) kind s (cc),
      )
      | inr missed ↦ inr (
        rw (reserve_range, c, t, e, missed) refl,
        any_overlaps-IsMissed start (start + len) kind s (cc),
      )
    ]
