-- ===== src/Heap/Image.antt =====
-- `initialize_heap`, its first part: the map without the framebuffer, the image and the stack.
use agnost_os.Base.{
  ℕ, ◌+◌, ◌-◌, ◌*◌, ◌%◌, ◌≡◌, refl, Bool, true, false, not, ◌&&◌, Option, none, some, List, [], ◌∷◌,
  ◌++◌, map, arith, Bool-cases, inl, inr, ◌⊎◌, Result, ok, err, ◌>>=◌, Result-cases, >>=-eq-ok,
}
use mathlib.Core.Path.{subst}
use agnost_os.Memory.{
  Descriptor, MemoryRange, MemoryMap, MemoryMapError, Snapshot, copy_from, page_size,
  add_framebuffer, initialize, reserve, reserve_range, add_external_range, kernel, device, mmio,
}
use agnost_os.Memory.Pieces.{between}
use agnost_os.Memory.Reserve.{IsMap}
use agnost_os.Memory.Errors.{reserve_range-IsMissed}
use agnost_os.Memory.Copy.{
  range_of, copy_from_lem, map-IsMap, outcome-cases, add_framebuffer-cases, initialize-ok,
  initialize_lem,
}
use agnost_os.Frame.{is_usable}
use agnost_os.Frame.Boot.{IsOrdered, usable_in}
use agnost_os.Heap.{reserve_image}
use agnost_os.Heap.Setup.{usable_in-kind_at}
use agnost_os.Heap.Usable.{usable_in-append, reserve_range-IsOrdered}

IsOrdered-append_other :
    (low : ℕ) (s : Snapshot) (r : MemoryRange)
    → is_usable r.kind ≡ false
    → IsOrdered low s
    → IsOrdered low (s ++ r ∷ [])
IsOrdered-append_other low [] r other o = rw other tt
IsOrdered-append_other low (q ∷ s) r other o = elim (Bool-cases (is_usable q.kind)) [
  | inl usable ↦
      let (a, b, c) = rw usable at o in
      rw usable (a, b, IsOrdered-append_other (q.start + q.length) s r other c)
  | inr unusable ↦
      let o' = rw unusable at o in rw unusable (IsOrdered-append_other low s r other o')
]

-- The usable memory of a map, without the addresses from `start` on.
abbrev TakenFrom : Snapshot → ℕ → ℕ → Snapshot → Type 0
TakenFrom s start len s' =
    IsMap s'
    × IsOrdered 0 s'
    × ((x : ℕ) → usable_in s' x ≡ (usable_in s x && not (between start (start + len) x)))

external-TakenFrom :
    (s : Snapshot) (start len : ℕ) {s' : Snapshot}
    → IsMap s'
    → IsOrdered 0 s
    → add_external_range s start len device ≡ (ok tt, s')
    → ((x : ℕ) → between start (start + len) x ≡ true → usable_in s x ≡ false)
    → TakenFrom s start len s'
unfolding add_external_range usable_in
external-TakenFrom s start len {s'} m o h missed =
    let new : MemoryRange = record {
      start = start;
      length = len;
      uefi_type = mmio;
      kind = device;
    } in
    let e : s' ≡ s ++ new ∷ [] = ground arith in
    (
      m,
      rw e (IsOrdered-append_other 0 s new refl o),
      λ x. rw e (ground (arith, usable_in-append s (new ∷ []) x, missed x)),
    )

initialize-TakenFrom :
    (ds : List Descriptor) (start len : ℕ) {s : Snapshot}
    → IsOrdered 0 (map range_of ds)
    → initialize none ds (some (start, len)) ≡ (ok tt, some s)
    → TakenFrom (map range_of ds) start len s
initialize-TakenFrom ds start len {s} o h =
    let (s0, e0, e1) =
      >>=-eq-ok (copy_from ds) (λ x. add_framebuffer x (some (start, len)))
        (initialize-ok ds (some (start, len)) h) in
    let v0 = (copy_from_lem ds).1 s0 e0 in
    let m0 = map-IsMap ds v0 in
    let e2 : s0 ≡ map range_of ds = cc ((copy_from_lem ds).0 v0) in
    let h' = subst (λ x. add_framebuffer x (some (start, len)) ≡ ok s) e2 e1 in
    elim (add_framebuffer-cases (map range_of ds) start len h') [
      | inl found ↦ reserve_range-IsOrdered (map range_of ds) start len device refl m0 o found
      | inr (missed, added) ↦
          let none_here = reserve_range-IsMissed (map range_of ds) start len device missed in
          external-TakenFrom (map range_of ds) start len (initialize_lem ds start len h).0 o added
            (λ x here. elim (Bool-cases (usable_in (map range_of ds) x)) [
              | inr unusable ↦ unusable
              | inl usable ↦ absurd (
                  usable_in-kind_at (map range_of ds) x m0.ranges usable
                    (none_here x (ground arith) (ground arith)))
            ])
    ]

reserve-TakenFrom :
    (s : Snapshot) (start len : ℕ) {m : MemoryMap}
    → IsMap s
    → IsOrdered 0 s
    → reserve (some s) start len kernel ≡ (ok tt, m)
    → (s' : Snapshot) × (m ≡ some s') × TakenFrom s start len s'
unfolding reserve
reserve-TakenFrom s start len {m} v o h = elim (outcome-cases (reserve_range s start len kernel)) [
  | inl (s', e) ↦
      let h' = rw (e, reserve) at h in
      (s', cc, reserve_range-IsOrdered s start len kernel refl v o e)
  | inr (x, s', e) ↦ let h' = rw (e, reserve) at h in cc
]

-- The start of the window of 64 pages around the stack.
abbrev pub stack_window : ℕ → ℕ
stack_window stack = stack - stack % page_size - 32 * page_size

-- The usable memory of a map that lies outside three ranges.
abbrev pub usable_outside : Snapshot → ℕ × ℕ → ℕ × ℕ → ℕ → ℕ → Bool
usable_outside s (a, a_len) (b, b_len) stack x =
    ((usable_in s x && not (between a (a + a_len) x)) && not (between b (b + b_len) x))
    && not (between (stack_window stack) (stack_window stack + 64 * page_size) x)

step-cases :
    (p : Result MemoryMapError (Unit {0}) × MemoryMap)
    → ((m : MemoryMap) × (p ≡ (ok tt, m)))
      ⊎ ((e : MemoryMapError) × (m : MemoryMap) × (p ≡ (err e, m)))
step-cases (ok tt, m) = inl (m, refl)
step-cases (err e, m) = inr (e, m, refl)

initialize-some :
    (ds : List Descriptor) (framebuffer : Option (ℕ × ℕ)) {m : MemoryMap}
    → initialize none ds framebuffer ≡ (ok tt, m)
    → (s : Snapshot) × (m ≡ some s)
unfolding initialize
initialize-some ds framebuffer h =
    elim (Result-cases (copy_from ds >>= λ s. add_framebuffer s framebuffer)) [
      | inl (s, e) ↦ let h' = rw (e, initialize) at h in (s, cc)
      | inr (x, e) ↦ let h' = rw (e, initialize) at h in cc
    ]

-- A preparation that succeeds has succeeded in its three steps.
reserve_image-ok :
    (ds : List Descriptor) (framebuffer : Option (ℕ × ℕ)) (start len stack : ℕ) {m : MemoryMap}
    → reserve_image none ds framebuffer (start, len) stack ≡ (ok tt, m)
    → (m1 : MemoryMap) × (m2 : MemoryMap) × (initialize none ds framebuffer ≡ (ok tt, m1))
      × (reserve m1 start len kernel ≡ (ok tt, m2))
      × (reserve m2 (stack_window stack) (64 * page_size) kernel ≡ (ok tt, m))
unfolding reserve_image
reserve_image-ok ds framebuffer start len stack {m} h =
    elim (step-cases (initialize none ds framebuffer)) [
      | inr (x, m1, e1) ↦ let h1 = rw (e1, reserve_image) at h in cc
      | inl (m1, e1) ↦
          let h1 = rw (e1, reserve_image, e1) at h in
          elim (step-cases (reserve m1 start len kernel)) [
            | inr (x, m2, e2) ↦ let h2 = rw e2 at h1 in cc
            | inl (m2, e2) ↦
                let h2 = rw (e2, e1, e2) at h1 in
                elim (step-cases (reserve m2 (stack_window stack) (64 * page_size) kernel)) [
                  | inr (x, m3, e3) ↦ let h3 = rw e3 at h2 in cc
                  | inl (m3, e3) ↦ let h3 = rw (e3, e1, e2, e3) at h2 in (m1, m2, e1, e2, cc)
                ]
          ]
    ]

pub reserve_image-TakenFrom :
    (ds : List Descriptor) (framebuffer image : ℕ × ℕ) (stack : ℕ) {m : MemoryMap}
    → IsOrdered 0 (map range_of ds)
    → reserve_image none ds (some framebuffer) image stack ≡ (ok tt, m)
    → (s : Snapshot) × (m ≡ some s)
      × IsMap s
      × IsOrdered 0 s
      × ((x : ℕ) → usable_in s x ≡ usable_outside (map range_of ds) framebuffer image stack x)
reserve_image-TakenFrom ds (fb, fb_len) (start, len) stack {m} o h =
    let (m1, m2, e1, e2, e3) = reserve_image-ok ds (some (fb, fb_len)) start len stack h in
    let (s1, q1) = initialize-some ds (some (fb, fb_len)) e1 in
    let (v1, o1, u1) = initialize-TakenFrom ds fb fb_len o (cc) in
    let (s2, q2, (v2, o2, u2)) = reserve-TakenFrom s1 start len v1 o1 (rw q1 at e2) in
    let (s3, q3, (v3, o3, u3)) =
      reserve-TakenFrom s2 (stack_window stack) (64 * page_size) v2 o2 (rw q2 at e3) in
    (s3, q3, v3, o3, λ x. rw (u3 x, u2 x, u1 x) refl)
