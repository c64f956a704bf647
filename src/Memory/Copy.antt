-- ===== src/Memory/Copy.antt =====
-- `MemoryMapSnapshot::copy_from` and `initialize`: which firmware maps are accepted, and what the
-- kernel then owns.
use agnost_os.Base.{
  ℕ, suc, ◌+◌, ◌*◌, ◌≤◌, ◌<◌, ◌≡◌, ◌≢◌, refl, sym, ap, false, Option, none, some, List, [], ◌∷◌,
  ◌++◌, map, arith, ◌==◌, if◌then◌else◌, Bool-cases, inl, inr, ◌⊎◌, Result, ok, err, ◌>>=◌,
  >>=-eq-ok, Result-cases, length, length-append, All, All-append, u64_max,
}
use mathlib.Core.List.{append_assoc, append-nil}
use mathlib.Core.Path.{subst}
use agnost_os.Memory.{
  Descriptor, MemoryRange, MemoryKind, MemoryMapError, Snapshot, kind_at, to_range, copy_entries,
  copy_from, from_uefi_type, page_size, add_framebuffer, initialize, reserve_range,
  add_external_range, max_memory_ranges, range_not_found, device, mmio,
}
use agnost_os.Memory.Pieces.{IsRange, between, kind_at-append}
use agnost_os.Memory.Errors.{reserve_range-IsMissed}
use agnost_os.Memory.Reserve.{IsMap, reserve_range_lem, reserve_range-err}

-- A descriptor of at least one page that ends below 2^64.
abbrev pub IsDescriptor : Descriptor → Type 0
IsDescriptor d = (0 < d.page_count) × (d.phys_start + d.page_count * page_size ≤ u64_max)

abbrev pub range_of : Descriptor → MemoryRange
range_of d = record {
  start = d.phys_start;
  length = d.page_count * page_size;
  uefi_type = d.ty;
  kind = from_uefi_type d.ty;
}

to_range-ok : (d : Descriptor) → IsDescriptor d → to_range d ≡ ok (range_of d)
unfolding to_range
to_range-ok d v = ground arith

to_range-inv :
    (d : Descriptor) {r : MemoryRange} → to_range d ≡ ok r → IsDescriptor d × (r ≡ range_of d)
unfolding to_range
to_range-inv d h = ground arith

range_of-IsRange : (d : Descriptor) → IsDescriptor d → IsRange (range_of d)
range_of-IsRange d v = omega arith

copy_entries-ok :
    (ds : List Descriptor) (acc : Snapshot)
    → All IsDescriptor ds
    → length acc + length ds ≤ max_memory_ranges
    → copy_entries ds acc ≡ ok (acc ++ map range_of ds)
unfolding copy_entries
copy_entries-ok [] acc v n = ap ok (sym (append-nil acc))
copy_entries-ok (d ∷ ds) acc (v, vs) n =
    let full : (length acc == max_memory_ranges) ≡ false = ground arith in
    let rest =
      copy_entries-ok ds (acc ++ range_of d ∷ []) vs
        (omega (arith, length-append acc (range_of d ∷ []))) in
    rw (full, to_range-ok d v) (cc (append_assoc acc (range_of d ∷ []) (map range_of ds)))

copy_entries-inv :
    (ds : List Descriptor) (acc : Snapshot) {out : Snapshot}
    → copy_entries ds acc ≡ ok out
    → length acc ≤ max_memory_ranges
    → All IsDescriptor ds × (length acc + length ds ≤ max_memory_ranges)
unfolding copy_entries
copy_entries-inv [] acc h n = (tt, omega arith)
copy_entries-inv (d ∷ ds) acc h n = elim (Bool-cases (length acc == max_memory_ranges)) [
  | inl full ↦ let h' = rw (full, copy_entries) at h in cc
  | inr free ↦ elim (Result-cases (to_range d)) [
    | inr (e, bad) ↦ let h' = rw (free, bad, copy_entries) at h in cc
    | inl (r, good) ↦
        let h' = rw (free, good, copy_entries) at h in
        let (v, _) = to_range-inv d good in
        let (vs, n') =
          copy_entries-inv ds (acc ++ r ∷ []) h' (ground (arith, length-append acc (r ∷ []))) in
        ((v, vs), omega (arith, n', length-append acc (r ∷ [])))
  ]
]

-- What the firmware's map must be for the kernel to take it.
abbrev pub IsFirmwareMap : List Descriptor → Type 0
IsFirmwareMap ds = All IsDescriptor ds × (0 < length ds) × (length ds ≤ max_memory_ranges)

length-map : (ds : List Descriptor) → length (map range_of ds) ≡ length ds
length-map [] = refl
length-map (d ∷ ds) = ap suc (length-map ds)

copy_from-nil : (s : Snapshot) → copy_from [] ≢ ok s
unfolding copy_from copy_entries
copy_from-nil s h = cc

-- The firmware's map is copied exactly when it has between 1 and 256 descriptors, each of at least
-- one page and ending below 2^64; the copy then has one range for each descriptor, in the same
-- order, of the same addresses and of the kind of its type.
pub copy_from_lem :
    (ds : List Descriptor)
    → (IsFirmwareMap ds → copy_from ds ≡ ok (map range_of ds))
      × ((s : Snapshot) → copy_from ds ≡ ok s → IsFirmwareMap ds)
unfolding copy_from
copy_from_lem [] = (λ v. ground arith, λ s h. absurd (copy_from-nil s h))
copy_from_lem (d ∷ ds) = (
  λ v. rw (copy_entries-ok (d ∷ ds) [] v.0 (omega (arith, v.2))) refl,
  λ s h.
      let (out, e, h') = >>=-eq-ok (copy_entries (d ∷ ds) []) _ h in
      let (vs, n) = copy_entries-inv (d ∷ ds) [] e (omega arith) in (vs, omega arith, omega arith),
)

map-IsRange : (ds : List Descriptor) → All IsDescriptor ds → All IsRange (map range_of ds)
map-IsRange [] v = tt
map-IsRange (d ∷ ds) (v, vs) = (range_of-IsRange d v, map-IsRange ds vs)

pub map-IsMap : (ds : List Descriptor) → IsFirmwareMap ds → IsMap (map range_of ds)
map-IsMap ds (v, _, n) = record { ranges = map-IsRange ds v; count = omega (arith, length-map ds) }

new_kind :
    (address start len : ℕ) (kind : MemoryKind) (k : Option MemoryKind)
    → start + len ≤ u64_max
    → elim k as (λ _. Option MemoryKind) [
      | none ↦
          kind_at
            (record { start = start; length = len; uefi_type = mmio; kind = kind } ∷ [])
            address
      | some k ↦ some k
    ]
      ≡ elim k as (λ _. Option MemoryKind) [
        | none ↦ if between start (start + len) address then some kind else none
        | some k ↦ some k
      ]
unfolding kind_at
new_kind address start len kind k fits = ground arith

add_external_range-ok :
    (s : Snapshot) (start len : ℕ) (kind : MemoryKind) {s' : Snapshot}
    → IsMap s
    → add_external_range s start len kind ≡ (ok tt, s')
    → IsMap s'
      × ((address : ℕ)
          → kind_at s' address ≡ elim (kind_at s address) as (λ _. Option MemoryKind) [
            | some k ↦ some k
            | none ↦ if between start (start + len) address then some kind else none
          ])
unfolding add_external_range
add_external_range-ok s start len kind {s'} v h =
    let new : MemoryRange = record { start = start; length = len; uefi_type = mmio; kind = kind } in
    let (e, pos, fits, room) : (s' ≡ s ++ new ∷ [])
        × (0 < len)
        × (start + len ≤ u64_max)
        × (length s ≢ max_memory_ranges) =
      ground arith in
    (
      record {
        ranges =
            subst (All IsRange) (sym e)
              (All-append IsRange s (new ∷ []) v.ranges ((pos, fits), tt));
        count = rw e (ground (arith, length-append s (new ∷ []), v.count));
      },
      λ address.
          rw (e, kind_at-append s (new ∷ []) address)
            (new_kind address start len kind (kind_at s address) fits),
    )

pub outcome-cases :
    (p : Result MemoryMapError (Unit {0}) × Snapshot)
    → ((s : Snapshot) × (p ≡ (ok tt, s)))
      ⊎ ((e : MemoryMapError) × (s : Snapshot) × (p ≡ (err e, s)))
outcome-cases (ok tt, s) = inl (s, refl)
outcome-cases (err e, s) = inr (e, s, refl)

pub add_framebuffer-cases :
    (s : Snapshot) (start len : ℕ) {s' : Snapshot}
    → add_framebuffer s (some (start, len)) ≡ ok s'
    → (reserve_range s start len device ≡ (ok tt, s'))
      ⊎ ((reserve_range s start len device ≡ (err range_not_found, s))
          × (add_external_range s start len device ≡ (ok tt, s')))
unfolding add_framebuffer
add_framebuffer-cases s start len {s'} h = elim (outcome-cases (reserve_range s start len device)) [
  | inl (t, e) ↦ let h' = rw (e, add_framebuffer) at h in inl (cc)
  | inr (range_not_found, t, e) ↦
      let e' : reserve_range s start len device ≡ (err range_not_found, s) =
        cc (reserve_range-err s start len device e) in
      let h' = rw (e', add_framebuffer) at h in
      elim (outcome-cases (add_external_range s start len device)) [
        | inl (u, f) ↦ let h'' = rw (e', f) at h' in inr (e', cc)
        | inr (_, u, f) ↦ let h'' = rw (e', f) at h' in cc
      ]
  | inr (_, t, e) ↦ let h' = rw (e, add_framebuffer) at h in cc
]

pub initialize-ok :
    (ds : List Descriptor) (framebuffer : Option (ℕ × ℕ)) {s : Snapshot}
    → initialize none ds framebuffer ≡ (ok tt, some s)
    → (copy_from ds >>= λ x. add_framebuffer x framebuffer) ≡ ok s
unfolding initialize
initialize-ok ds framebuffer h = ground arith

-- What `initialize` makes of an address: inside the framebuffer it is device memory, or the map
-- does not describe it; outside it has the kind of the firmware's descriptor.
abbrev pub IsInitialKind : List Descriptor → ℕ → ℕ → Snapshot → ℕ → Type 0
IsInitialKind ds start len s address =
    if between start (start + len) address
    then (kind_at s address ≡ some device)
      ⊎ ((kind_at s address ≡ none) × (kind_at (map range_of ds) address ≡ none))
    else kind_at s address ≡ kind_at (map range_of ds) address

added_kind :
    (ds : List Descriptor) (start len : ℕ) (s : Snapshot) (address : ℕ)
    → kind_at s address ≡ elim (kind_at (map range_of ds) address) as (λ _. Option MemoryKind) [
      | some k ↦ some k
      | none ↦ if between start (start + len) address then some device else none
    ]
    → (start ≤ address → address < start + len → kind_at (map range_of ds) address ≡ none)
    → IsInitialKind ds start len s address
added_kind ds start len s address k missed = ground arith

-- An initialization with a framebuffer that succeeds keeps the firmware's kind of every address
-- outside the framebuffer, and classes as device memory every address of the framebuffer that the
-- firmware's map describes; the other addresses of the framebuffer are device memory or not in the
-- map. The map is proper and within its table.
pub initialize_lem :
    (ds : List Descriptor) (start len : ℕ) {s : Snapshot}
    → initialize none ds (some (start, len)) ≡ (ok tt, some s)
    → IsMap s × ((address : ℕ) → IsInitialKind ds start len s address)
unfolding initialize
initialize_lem ds start len {s} h =
    let (s0, e0, e1) =
      >>=-eq-ok (copy_from ds) (λ x. add_framebuffer x (some (start, len)))
        (initialize-ok ds (some (start, len)) h) in
    let v0 = (copy_from_lem ds).1 s0 e0 in
    let m0 = map-IsMap ds v0 in
    let e2 : s0 ≡ map range_of ds = cc ((copy_from_lem ds).0 v0) in
    let h' = subst (λ x. add_framebuffer x (some (start, len)) ≡ ok s) e2 e1 in
    elim (add_framebuffer-cases (map range_of ds) start len h') [
      | inl found ↦
          let (m, k) = reserve_range_lem (map range_of ds) start len device m0 found in
          (m, λ address. ground (arith, k address))
      | inr (missed, added) ↦
          let (m, k) = add_external_range-ok (map range_of ds) start len device m0 added in
          (
            m,
            λ address.
                added_kind ds start len s address (k address)
                  (reserve_range-IsMissed (map range_of ds) start len device missed address),
          )
    ]
