-- ===== src/Paging/AddressSpace.antt =====
-- What `initialize` maps.
use agnost_os.Base.{
  ℕ, ◌+◌, ◌-◌, ◌*◌, ◌%◌, ◌^◌, ◌≤◌, ◌<◌, ◌≡◌, ◌↔◌, refl, sym, ◌∙◌, inl, inr, true, ◌&&◌, none, some,
  arith, leb, ltb, ==→eq, ◌==◌, if◌then◌else◌, Bool-cases, ok, err, checked,
}
use mathlib.Core.Path.{subst}
use agnost_os.Memory.{page_size}
use agnost_os.Frame.{OwnedFrame}
use agnost_os.Paging.Mapper.{Mapper, PageTableFlags}
use agnost_os.Paging.Pages.{Paging, Outcome, translation, device_flags}
use agnost_os.Paging.Mapping.{IsRooted, Keeps}
use agnost_os.Paging.Identity.{map_range, map_range_lem}
use agnost_os.Paging.Boot.{
  image_flags, memory_flags, and_then, map_image, map_heap, map_framebuffer, map_stack, meets,
}

pages-meets :
    (first last start length p : ℕ)
    → (p % page_size ≡ 0
        → ((first ≤ p) × (p < last)) ↔ ((p < start + length) × (start < p + page_size)))
    → ((p % page_size == 0) && (leb first p && ltb p last)) ≡ meets p start length
pages-meets first last start length p h = elim (Bool-cases (p % page_size == 0)) [
  | inr part ↦ rw part refl
  | inl whole ↦ let both = h (==→eq (p % page_size) 0 whole) in ground (arith, both.0, both.1)
]

-- Rounding the start down to a page changes no page that is met.
meets-rounded :
    (p start length end : ℕ)
    → end ≡ start + length
    → meets p (start - start % page_size) (end - (start - start % page_size)) ≡ meets p start length
meets-rounded p start length end e = ground arith

module _ (mapper : Mapper) (storage : ℕ) where
  -- A range mapped to itself in one step.
  pub record IsAdded (s s' : Paging mapper storage) (frame : OwnedFrame) (start length : ℕ)
      (flags : PageTableFlags) : Type 0 where
    pub keeps : Keeps mapper storage s s' frame
    pub were_free : (p : ℕ) → meets p start length ≡ true → translation mapper storage s p ≡ none
    pub translations :
        (p : ℕ)
        → translation mapper storage s' p
          ≡ (if meets p start length then some (p, flags) else translation mapper storage s p)

  pub map_range-IsAdded :
      (s s' : Paging mapper storage) (frame : OwnedFrame) (start length : ℕ)
      (flags : PageTableFlags)
      → storage % page_size ≡ 0
      → IsRooted mapper storage s frame
      → flags.present ≡ true
      → start + length ≤ 2 ^ 47
      → map_range mapper storage s start length flags ≡ (ok tt, s')
      → IsAdded s s' frame start length flags
  map_range-IsAdded s s' frame start length flags aligned v vr bound h =
      let (first, last, pages, outcome) =
        map_range_lem mapper storage s frame start length flags aligned v vr bound in
      elim outcome [
        | inr (u, stop, e, _, _, _) ↦ let clash = sym e ∙ h in cc
        | inl (u, e, i) ↦
            let same : u ≡ s' = let both = sym e ∙ h in cc in
            subst (λ x. IsAdded s x frame start length flags) same
              (record {
                keeps = i.keeps;
                were_free = λ p m.
                    ground (arith, pages-meets first last start length p (pages p), i.were_free p);
                translations =
                    λ p. rw (← pages-meets first last start length p (pages p)) (i.translations p);
              })
      ]

  pub and_then-eq-ok :
      (o : Outcome mapper storage (Unit {0}))
      (next : Paging mapper storage → Outcome mapper storage (Unit {0}))
      {s' : Paging mapper storage}
      → and_then mapper storage o next ≡ (ok tt, s')
      → (u : Paging mapper storage) × (o ≡ (ok tt, u)) × (next u ≡ (ok tt, s'))
  and_then-eq-ok (err e, u) next h = absurd (cc)
  and_then-eq-ok (ok tt, u) next h = (u, refl, h)

  -- The same, for a range whose start is rounded down.
  IsAdded-rounded :
      (s s' : Paging mapper storage) (frame : OwnedFrame) (start length end : ℕ)
      (flags : PageTableFlags)
      → end ≡ start + length
      → IsAdded s s' frame (start - start % page_size) (end - (start - start % page_size)) flags
      → IsAdded s s' frame start length flags
  IsAdded-rounded s s' frame start length end flags e a = record {
    keeps = a.keeps;
    were_free = λ p m. a.were_free p (meets-rounded p start length end e ∙ m);
    translations = λ p. rw (← meets-rounded p start length end e) (a.translations p);
  }

  module _ (aligned : storage % page_size ≡ 0) (s s' : Paging mapper storage) (frame : OwnedFrame)
      (v : IsRooted mapper storage s frame) where
    pub map_image-IsAdded :
        (start size : ℕ)
        → start + size ≤ 2 ^ 47
        → map_image mapper storage s (start, size) ≡ (ok tt, s')
        → IsAdded s s' frame start size image_flags
    unfolding map_image
    map_image-IsAdded start size bound h =
        let fits : checked (start + size) ≡ some (start + size) = ground arith in
        IsAdded-rounded s s' frame start size (start + size) image_flags refl (
          map_range-IsAdded s s' frame (start - start % page_size)
            (start + size - (start - start % page_size)) image_flags aligned v refl (omega arith)
            (rw (fits, map_image) at h))

    pub map_framebuffer-IsAdded :
        (start size : ℕ)
        → start + size ≤ 2 ^ 47
        → map_framebuffer mapper storage s (start, size) ≡ (ok tt, s')
        → IsAdded s s' frame start size device_flags
    unfolding map_framebuffer
    map_framebuffer-IsAdded start size bound h =
        let fits : checked (start + size) ≡ some (start + size) = ground arith in
        IsAdded-rounded s s' frame start size (start + size) device_flags refl (
          map_range-IsAdded s s' frame (start - start % page_size)
            (start + size - (start - start % page_size)) device_flags aligned v refl (omega arith)
            (rw (fits, map_framebuffer) at h))

    pub map_heap-IsAdded :
        (start size : ℕ)
        → 0 < size
        → start + size ≤ 2 ^ 47
        → map_heap mapper storage s (start, size) ≡ (ok tt, s')
        → IsAdded s s' frame start size memory_flags
    unfolding map_heap
    map_heap-IsAdded start size pos bound h =
        map_range-IsAdded s s' frame start size memory_flags aligned v refl bound (ground arith)

    pub map_stack-IsAdded :
        (stack : ℕ)
        → stack + 32 * page_size ≤ 2 ^ 47
        → map_stack mapper storage s stack ≡ (ok tt, s')
        → IsAdded s s' frame
            (stack - stack % page_size - 31 * page_size)
            (62 * page_size)
            memory_flags
    unfolding map_stack
    map_stack-IsAdded stack bound h =
        map_range-IsAdded s s' frame (stack - stack % page_size - 31 * page_size) (62 * page_size)
          memory_flags aligned v refl (omega arith) h
