-- ===== src/Paging/Identity.antt =====
-- `map_range`: the identity mapping of a range of addresses, page by page.
use agnost_os.Base.{
  true, ℕ, zero, suc, ◌+◌, ◌-◌, ◌*◌, ◌/◌, ◌%◌, ◌^◌, ◌≤◌, ◌<◌, ◌≡◌, ◌↔◌, refl, ◌∙◌, ◌⊎◌, inl, inr,
  ◌&&◌, Option, none, some, arith, leb, ltb, ◌==◌, if◌then◌else◌, Bool-cases, ok, err, checked,
}
use agnost_os.Memory.{page_size}
use agnost_os.Frame.{OwnedFrame}
use agnost_os.Paging.{address_too_large, mapping_failed}
use agnost_os.Paging.Mapper.{Mapper, PageTableFlags, IsPage}
use agnost_os.Paging.Pages.{Paging, Outcome, translation, map_page}
use agnost_os.Paging.Mapping.{IsRooted, Keeps, IsMapped, map_page_lem}

-- The end of the last page of a range that ends at `end`.
unfoldable pub last_page_end : ℕ → Option ℕ
last_page_end end =
    if end % page_size == 0 then some end else elim (checked (end + (page_size - 1))) [
      | none ↦ none
      | some n ↦ some (n / page_size * page_size)
    ]

-- A page below 2^47 is canonical and in the lower half of the root table.
low-IsPage : (page : ℕ) → page % page_size ≡ 0 → page < 2 ^ 47 → IsPage page
low-IsPage page z lt = (z, omega arith, ground arith, λ e. omega arith)

last_page_end_lem :
    (end : ℕ)
    → end ≤ 2 ^ 47
    → (last : ℕ) × (last_page_end end ≡ some last)
      × (last % page_size ≡ 0)
      × (end ≤ last)
      × (last < end + page_size)
unfolding last_page_end
last_page_end_lem end bound = elim (Bool-cases (end % page_size == 0)) [
  | inl whole ↦ (end, rw whole refl, ground arith, omega arith, omega arith)
  | inr part ↦ (
    (end + (page_size - 1)) / page_size * page_size,
    ground arith,
    omega arith,
    omega arith,
    omega arith,
  )
]

module _ (mapper : Mapper) (storage : ℕ) where
  -- `while address < last`, with one unit of fuel for each page.
  unfoldable pub map_pages :
      ℕ → Paging mapper storage → ℕ → ℕ → PageTableFlags → Outcome mapper storage (Unit {0})
  map_pages zero s address last flags = (ok tt, s)
  map_pages (suc fuel) s address last flags =
      let (mapped, s') = map_page mapper storage s address address flags in
      let rest = map_pages fuel s' (address + page_size) last flags in
      if ltb address last then (elim mapped [ err e ↦ (err e, s') | ok _ ↦ rest ]) else (ok tt, s)

  unfoldable pub map_range :
      Paging mapper storage → ℕ → ℕ → PageTableFlags → Outcome mapper storage (Unit {0})
  map_range s start length flags = elim (checked (start + length)) [
    | none ↦ (err address_too_large, s)
    | some end ↦
        let first = start / page_size * page_size in
        elim (last_page_end end) [
          | none ↦ (err address_too_large, s)
          | some last ↦ map_pages ((last - first) / page_size) s first last flags
        ]
  ]

  -- The pages from `first` up to `last` are mapped to themselves, and no other page has changed.
  pub record IsIdentity (s s' : Paging mapper storage) (frame : OwnedFrame) (first last : ℕ)
      (flags : PageTableFlags) : Type 0 where
    pub keeps : Keeps mapper storage s s' frame
    pub were_free :
        (p : ℕ) → p % page_size ≡ 0 → first ≤ p → p < last → translation mapper storage s p ≡ none
    pub translations :
        (p : ℕ)
        → translation mapper storage s' p ≡ (
            if (p % page_size == 0) && (leb first p && ltb p last)
            then some (p, flags)
            else translation mapper storage s p)

  -- The outcome of the loop: all pages are mapped, or those before the one that is refused.
  abbrev pub Mapped :
      Paging mapper storage
      → OwnedFrame
      → ℕ
      → ℕ
      → PageTableFlags
      → Outcome mapper storage (Unit {0})
      → Type 0
  Mapped s frame first last flags out =
      ((s' : Paging mapper storage) × (out ≡ (ok tt, s')) × IsIdentity s s' frame first last flags)
      ⊎ ((s' : Paging mapper storage) × (stop : ℕ) × (out ≡ (err mapping_failed, s'))
          × (first ≤ stop)
          × (stop < last)
          × IsIdentity s s' frame first stop flags)

  IsIdentity-none :
      (s : Paging mapper storage) (frame : OwnedFrame) (first last : ℕ) (flags : PageTableFlags)
      → IsRooted mapper storage s frame
      → last ≤ first
      → IsIdentity s s frame first last flags
  IsIdentity-none s frame first last flags v le = record {
    keeps = record { rooted = v; active = refl };
    were_free = λ p z from to. absurd (omega arith);
    translations = λ p. ground arith;
  }

  IsIdentity-step :
      (s s' s'' : Paging mapper storage) (frame : OwnedFrame) (address last : ℕ)
      (flags : PageTableFlags)
      → address % page_size ≡ 0
      → address < last
      → Keeps mapper storage s s' frame
      → IsMapped mapper storage s s' address address flags
      → IsIdentity s' s'' frame (address + page_size) last flags
      → IsIdentity s s'' frame address last flags
  IsIdentity-step s s' s'' frame address last flags z lt k (before, after) i = record {
    keeps = record { rooted = i.keeps.rooted; active = i.keeps.active ∙ k.active };
    were_free = λ p zp from to. ground (arith, i.were_free p zp, after p, before);
    translations = λ p. ground (arith, i.translations p, after p);
  }

  map_pages_lem :
      (n : ℕ) (s : Paging mapper storage) (frame : OwnedFrame) (address last : ℕ)
      (flags : PageTableFlags)
      → storage % page_size ≡ 0
      → IsRooted mapper storage s frame
      → flags.present ≡ true
      → address % page_size ≡ 0
      → last ≡ address + n * page_size
      → last ≤ 2 ^ 47
      → Mapped s frame address last flags (map_pages n s address last flags)
  unfolding map_pages
  map_pages_lem zero s frame address last flags aligned v vr z e low =
      inl (s, refl, IsIdentity-none s frame address last flags v (omega arith))
  map_pages_lem (suc n) s frame address last flags aligned v vr z e low =
      let page : IsPage address = low-IsPage address z (omega arith) in
      elim (map_page_lem mapper storage s frame address address flags aligned v page
        (z, omega arith) vr) [
          | inr (s', r, k, same) ↦ inr (
            s',
            address,
            ground (arith, r),
            omega arith,
            omega arith,
            record {
              keeps = k;
              were_free = λ p zp from to. absurd (omega arith);
              translations = λ p. ground (arith, same p);
            },
          )
          | inl (s', r, k, m) ↦
              elim (map_pages_lem n s' frame (address + page_size) last flags aligned k.rooted vr
                (omega arith) (omega arith) low) [
                  | inl (s'', r', i) ↦ inl (
                    s'',
                    ground (arith, r, r'),
                    IsIdentity-step s s' s'' frame address last flags z (omega arith) k m i,
                  )
                  | inr (s'', stop, r', le, lt, i) ↦ inr (
                    s'',
                    stop,
                    ground (arith, r, r'),
                    omega arith,
                    lt,
                    IsIdentity-step s s' s'' frame address stop flags z (omega arith) k m i,
                  )
                ]
        ]

  -- With the tables in aligned storage, mapping a range that ends at 2^47 or before, as present,
  -- comes to an end with one of two outcomes. It succeeds: each page that has an address in common with the range
  -- was not mapped, and translates to itself with the flags; no other page has changed. Or the
  -- mapper refuses a page of the range: then the same holds of the pages before that one.
  pub map_range_lem :
      (s : Paging mapper storage) (frame : OwnedFrame) (start length : ℕ) (flags : PageTableFlags)
      → storage % page_size ≡ 0
      → IsRooted mapper storage s frame
      → flags.present ≡ true
      → start + length ≤ 2 ^ 47
      → (first : ℕ) × (last : ℕ) × ((p : ℕ)
          → p % page_size ≡ 0
          → ((first ≤ p) × (p < last)) ↔ ((p < start + length) × (start < p + page_size)))
        × Mapped s frame first last flags (map_range s start length flags)
  unfolding map_range
  map_range_lem s frame start length flags aligned v vr bound =
      let first = start / page_size * page_size in
      let (last, e, z, le, lt) = last_page_end_lem (start + length) bound in
      let n = (last - first) / page_size in
      let loop =
        map_pages_lem n s frame first last flags aligned v vr (omega arith) (omega arith)
          (omega arith) in
      let fits : checked (start + length) ≡ some (start + length) = ground arith in
      (first, last, λ p zp. (λ h. omega arith, λ h. omega arith), rw (map_range, fits, e) loop)
