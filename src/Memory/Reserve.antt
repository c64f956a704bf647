-- ===== src/Memory/Reserve.antt =====
-- `MemoryMapSnapshot::reserve_range`: what a reservation does to every address.
use agnost_os.Base.{
  ℕ, ◌+◌, ◌≤◌, ◌<◌, min, max, ◌≡◌, refl, sym, Bool, true, false, ◌||◌, Option, none, some, List, [],
  ◌∷◌, ◌++◌, arith, leb, if◌then◌else◌, Bool-cases, inl, inr, ok, err, >>=-eq-ok, length,
  length-append, All, All-append, u64_max,
}
use mathlib.Core.List.{append_assoc, append-nil}
use mathlib.Core.Path.{subst}
use agnost_os.Memory.{
  MemoryRange, MemoryKind, MemoryMapError, Snapshot, range_end, kind_at, push_range, reserve_one,
  reserve_loop, reserve_range, max_memory_ranges,
}
use agnost_os.Memory.Pieces.{
  IsRange, between, kind_at-append, pieces, overlaps, reserve_one-ok, pieces-IsRange,
  kind_at-pieces,
}

-- The map after a reservation, range by range.
unfoldable pub rewritten : ℕ → ℕ → MemoryKind → List MemoryRange → Snapshot
rewritten start end kind [] = []
rewritten start end kind (r ∷ rs) = pieces start end kind r ++ rewritten start end kind rs

unfoldable pub any_overlaps : ℕ → ℕ → MemoryKind → List MemoryRange → Bool
any_overlaps start end kind [] = false
any_overlaps start end kind (r ∷ rs) = overlaps start end kind r || any_overlaps start end kind rs

or_assoc : (a b c : Bool) → ((a || b) || c) ≡ (a || (b || c))
or_assoc true b c = refl
or_assoc false b c = refl

or_false : (a : Bool) → (a || false) ≡ a
or_false true = refl
or_false false = refl

module _ (start end : ℕ) (kind : MemoryKind) where
  pub reserve_loop-ok :
      (old : List MemoryRange) (acc : Snapshot) (overlapped : Bool) {out : Snapshot}
      {overlapped' : Bool}
      → reserve_loop start end kind old (acc, overlapped) ≡ ok (out, overlapped')
      → (out ≡ acc ++ rewritten start end kind old)
        × (overlapped' ≡ (overlapped || any_overlaps start end kind old))
  unfolding reserve_loop rewritten any_overlaps
  reserve_loop-ok [] acc overlapped h = (cc (append-nil acc), cc (or_false overlapped))
  reserve_loop-ok (r ∷ old) acc overlapped h =
      let ((mid, o), e, h') = >>=-eq-ok (reserve_one start end kind r (acc, overlapped)) _ h in
      let (em, eo) = reserve_one-ok start end kind r acc overlapped e in
      let (p, q) = reserve_loop-ok old mid o h' in
      (
        cc (append_assoc acc (pieces start end kind r) (rewritten start end kind old)),
        cc (or_assoc overlapped (overlaps start end kind r) (any_overlaps start end kind old)),
      )

  pub rewritten-IsRange :
      (old : List MemoryRange)
      → start ≤ end
      → All IsRange old
      → All IsRange (rewritten start end kind old)
  unfolding rewritten
  rewritten-IsRange [] le h = tt
  rewritten-IsRange (r ∷ old) le (v, h) =
      All-append IsRange (pieces start end kind r) _ (pieces-IsRange start end kind r v le)
        (rewritten-IsRange old le h)

  -- The kind of an address after the reservation, by the kind before.
  abbrev pub reserved_kind : ℕ → Option MemoryKind → Option MemoryKind
  reserved_kind address none = none
  reserved_kind address (some k) = some (if between start end address then kind else k)

  pub kind_at-rewritten :
      (old : List MemoryRange) (address : ℕ)
      → All IsRange old
      → kind_at (rewritten start end kind old) address ≡ reserved_kind address (kind_at old address)
  unfolding rewritten kind_at
  kind_at-rewritten [] address h = refl
  kind_at-rewritten (r ∷ old) address (v, h) =
      rw
        (
          kind_at-append (pieces start end kind r) (rewritten start end kind old) address,
          kind_at-pieces start end kind r address v,
        )
        (ground (arith, kind_at-rewritten old address h))

-- A map that the kernel's table can hold: its ranges are proper and fit the array.
pub record IsMap (s : Snapshot) : Type 0 where
  pub ranges : All IsRange s
  pub count : length s ≤ max_memory_ranges

push_range-count :
    (s : Snapshot) (v : MemoryRange) {out : Snapshot}
    → push_range s v ≡ ok out
    → length s ≤ max_memory_ranges
    → length out ≤ max_memory_ranges
unfolding push_range
push_range-count s v h le = ground (arith, length-append s (v ∷ []))

module _ (start end : ℕ) (kind : MemoryKind) where
  reserve_one-count :
      (r : MemoryRange) (s : Snapshot) (o : Bool) {out : Snapshot} {o' : Bool}
      → reserve_one start end kind r (s, o) ≡ ok (out, o')
      → length s ≤ max_memory_ranges
      → length out ≤ max_memory_ranges
  unfolding reserve_one
  reserve_one-count r s o {out} {o'} h le =
      elim (Bool-cases (leb (min end (range_end r)) (max start r.start))) [
        | inl apart ↦ ground (arith, length-append s (r ∷ []))
        | inr meet ↦
            let h1 = rw (meet, reserve_one) at h in
            let (l, el, h2) = >>=-eq-ok (push_range s _) _ h1 in
            let (m, em, h3) = >>=-eq-ok (push_range l _) _ h2 in
            let (n, en, h4) = >>=-eq-ok (push_range m _) _ h3 in
            let le' =
              push_range-count m _ en (push_range-count l _ em (push_range-count s _ el le)) in
            let e : n ≡ out = cc in subst (λ x. length x ≤ max_memory_ranges) e le'
      ]

  reserve_loop-count :
      (old : List MemoryRange) (s : Snapshot) (o : Bool) {out : Snapshot} {o' : Bool}
      → reserve_loop start end kind old (s, o) ≡ ok (out, o')
      → length s ≤ max_memory_ranges
      → length out ≤ max_memory_ranges
  unfolding reserve_loop
  reserve_loop-count [] s o {out} h le =
      let e : s ≡ out = cc in subst (λ x. length x ≤ max_memory_ranges) e le
  reserve_loop-count (r ∷ old) s o h le =
      let ((mid, o'), e, h') = >>=-eq-ok (reserve_one start end kind r (s, o)) _ h in
      reserve_loop-count old mid o' h' (reserve_one-count r s o e le)

-- What an accepted reservation has computed.
pub reserve_range-ok :
    (s : Snapshot) (start len : ℕ) (kind : MemoryKind) {s' : Snapshot}
    → reserve_range s start len kind ≡ (ok tt, s')
    → (0 < len)
      × (start + len ≤ u64_max)
      × (reserve_loop start (start + len) kind s ([], false) ≡ ok (s', true))
unfolding reserve_range
reserve_range-ok s start len kind h = ground arith

-- A reservation that is accepted gives the addresses of its range that the map describes the new
-- kind, leaves the kind of every other address alone, and adds no address to the map. The map
-- stays proper and within its table.
pub reserve_range_lem :
    (s : Snapshot) (start len : ℕ) (kind : MemoryKind) {s' : Snapshot}
    → IsMap s
    → reserve_range s start len kind ≡ (ok tt, s')
    → IsMap s'
      × ((address : ℕ)
          → kind_at s' address ≡ reserved_kind start (start + len) kind address (kind_at s address))
reserve_range_lem s start len kind {s'} v h =
    let (pos, fits, e) = reserve_range-ok s start len kind h in
    let (eq, _) = reserve_loop-ok start (start + len) kind s [] false e in
    let le : start ≤ start + len = omega arith in
    (
      record {
        ranges =
            subst (All IsRange) (sym eq) (rewritten-IsRange start (start + len) kind s le v.ranges);
        count = reserve_loop-count start (start + len) kind s [] false e (omega arith);
      },
      λ address.
          subst
            (λ x.
              kind_at x address
              ≡ reserved_kind start (start + len) kind address (kind_at s address))
            (sym eq) (kind_at-rewritten start (start + len) kind s address v.ranges),
    )

-- A reservation that is refused, for whatever reason, leaves the map as it was.
pub reserve_range-err :
    (s : Snapshot) (start len : ℕ) (kind : MemoryKind) {e : MemoryMapError} {s' : Snapshot}
    → reserve_range s start len kind ≡ (err e, s')
    → s' ≡ s
unfolding reserve_range
reserve_range-err s start len kind h = ground arith
