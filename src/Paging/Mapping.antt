-- ===== src/Paging/Mapping.antt =====
-- What mapping and unmapping one page does to the translations.
use agnost_os.Base.{
  ◌<◌, ◌^◌, ℕ, ◌%◌, ◌≡◌, ◌≢◌, refl, sym, ◌∙◌, ◌⊎◌, inl, inr, Bool, true, false, Option, none, some,
  arith, Bool-cases, ==→eq, ==→ne, ◌==◌, if◌then◌else◌, ok, err,
}
use mathlib.Core.Path.{subst}
use agnost_os.Memory.{MemoryKind, MemoryMap, page_size, device}
use agnost_os.Frame.{OwnedFrame}
use agnost_os.Paging.{
  PageTableArena, PageTableRoot, new_range, reserve_frame, mapping_failed, not_device_memory,
  PagingError, range, misaligned,
}
use agnost_os.Paging.Mapper.{Mapper, PageTableFlags, Access, IsPage, IsFrame}
use agnost_os.Paging.Arena.{IsArena, reserve_frame_lem}
use agnost_os.Paging.Pages.{
  Paging, access_of, translation, map_on_mapper, unmap_on_mapper, map_page, map_device_page,
  unmap_page, global_kind_at, device_flags, is_device,
}

page-range :
    (page : ℕ)
    → IsPage page
    → new_range page page_size ≡ ok (record { start = page; length = page_size })
unfolding new_range
page-range page v = ground arith

device_kind : (kind : Option MemoryKind) → is_device kind ≡ true → kind ≡ some device
device_kind kind h = ground arith

not_device : (kind : Option MemoryKind) → is_device kind ≡ false → kind ≢ some device
not_device kind h e = ground arith

module _ (mapper : Mapper) (storage : ℕ) where
  -- A root with a proper arena.
  abbrev pub IsRooted : Paging mapper storage → OwnedFrame → Type 0
  IsRooted s frame =
      (root : PageTableRoot) × (s.root ≡ some root)
      × (root.frame ≡ frame)
      × IsArena storage root.arena

  -- What a step leaves as it is.
  pub record Keeps (s s' : Paging mapper storage) (frame : OwnedFrame) : Type 0 where
    pub rooted : IsRooted s' frame
    pub active : s'.active ≡ s.active

  -- The page alone is mapped anew.
  abbrev pub IsMapped :
      Paging mapper storage → Paging mapper storage → ℕ → ℕ → PageTableFlags → Type 0
  IsMapped s s' page frame flags =
      (translation mapper storage s page ≡ none)
      × ((p : ℕ)
          → translation mapper storage s' p
            ≡ (if p == page then some (frame, flags) else translation mapper storage s p))

  abbrev pub IsUnchanged : Paging mapper storage → Paging mapper storage → Type 0
  IsUnchanged s s' = (p : ℕ) → translation mapper storage s' p ≡ translation mapper storage s p

  reserve-IsArena :
      storage % page_size ≡ 0
      → (a : PageTableArena) → IsArena storage a
      → IsArena storage (reserve_frame storage a).1
  reserve-IsArena aligned a v = elim (reserve_frame_lem storage a v aligned) [
    | inl (_, e) ↦ rw e v
    | inr (_, address, a', e, v', _, _, _, _) ↦ rw e v'
  ]

  map_to-cases :
      (access : Access) (page frame : ℕ) (flags : PageTableFlags) (arena : PageTableArena)
      (t : mapper.Tables)
      → ((arena' : PageTableArena) × (t' : mapper.Tables) × (mapper.map_to access
              (reserve_frame storage)
              page
              frame
              flags
              arena
              t
            ≡ (true, arena', t')))
        ⊎ ((arena' : PageTableArena) × (t' : mapper.Tables) × (mapper.map_to access
                (reserve_frame storage)
                page
                frame
                flags
                arena
                t
              ≡ (false, arena', t')))
  map_to-cases access page frame flags arena t =
      outcomes (mapper.map_to access (reserve_frame storage) page frame flags arena t)
    where
      outcomes :
          (o : Bool × PageTableArena × mapper.Tables)
          → ((arena' : PageTableArena) × (t' : mapper.Tables) × (o ≡ (true, arena', t')))
            ⊎ ((arena' : PageTableArena) × (t' : mapper.Tables) × (o ≡ (false, arena', t')))
      outcomes (true, a, t) = inl (a, t, refl)
      outcomes (false, a, t) = inr (a, t, refl)

  -- Mapping a page as present ends in one of two ways. It succeeds: the page was not mapped, and now it
  -- translates to the frame with the flags, and no other page has changed. Or the mapper refuses it,
  -- and no translation has changed. Either way the root's frame, its arena's order and the choice of
  -- the mapper stay.
  pub map_page_lem :
      (s : Paging mapper storage) (root_frame : OwnedFrame) (page frame : ℕ)
      (flags : PageTableFlags)
      → storage % page_size ≡ 0
      → IsRooted s root_frame
      → IsPage page
      → IsFrame frame
      → flags.present ≡ true
      → ((s' : Paging mapper storage) × (map_page mapper storage s page frame flags ≡ (ok tt, s'))
          × Keeps s s' root_frame
          × IsMapped s s' page frame flags)
        ⊎ ((s' : Paging mapper storage) × (map_page mapper storage s page frame flags
              ≡ (err mapping_failed, s'))
            × Keeps s s' root_frame
            × IsUnchanged s s')
  unfolding map_page map_on_mapper
  map_page_lem s root_frame page frame flags aligned (root, e, same, v) vp vf vr =
      let q = page-range page vp in
      let access = access_of mapper storage s in
      elim (map_to-cases access page frame flags root.arena s.tables) [
        | inl (a', t', m) ↦ inl (
          record s { root = some (record root { arena = a' }); tables = t' },
          ground (arith, q, e, m),
          record {
            rooted = (
              record root { arena = a' },
              refl,
              same,
              rw m at (
                  mapper.map_to-arena (IsArena storage) access (reserve_frame storage) page frame
                    flags root.arena s.tables (reserve-IsArena aligned) v),
            );
            active = refl;
          },
          mapper.map_to-ok access (reserve_frame storage) page frame flags root.arena a' s.tables t'
              vp vf vr m,
        )
        | inr (a', t', m) ↦ inr (
          record s { root = some (record root { arena = a' }); tables = t' },
          ground (arith, q, e, m),
          record {
            rooted = (
              record root { arena = a' },
              refl,
              same,
              rw m at (
                  mapper.map_to-arena (IsArena storage) access (reserve_frame storage) page frame
                    flags root.arena s.tables (reserve-IsArena aligned) v),
            );
            active = refl;
          },
          mapper.map_to-err access (reserve_frame storage) page frame flags root.arena a' s.tables
              t' vp vf m,
        )
      ]

  -- With the tables in aligned storage: a page that has been mapped as present to an aligned frame is unmapped
  -- again with success, the frame comes back, and every translation is what it was before.
  pub unmap_page-map_page :
      (s s' : Paging mapper storage) (root_frame : OwnedFrame) (page frame : ℕ)
      (flags : PageTableFlags)
      → storage % page_size ≡ 0
      → IsRooted s root_frame
      → IsPage page
      → IsFrame frame
      → flags.present ≡ true
      → map_page mapper storage s page frame flags ≡ (ok tt, s')
      → (s'' : Paging mapper storage) × (unmap_page mapper storage s' page ≡ (ok frame, s''))
        × IsUnchanged s s''
  unfolding unmap_page unmap_on_mapper
  unmap_page-map_page s s' root_frame page frame flags aligned v vp vf vr done =
      elim (map_page_lem s root_frame page frame flags aligned v vp vf vr) [
        | inr (u, e, _, _) ↦ let clash = sym e ∙ done in cc
        | inl (u, e, k, (before, after)) ↦
            let same : u ≡ s' = let both = sym e ∙ done in cc in
            let (root, r, _, _) = subst (λ x. IsRooted x root_frame) same k.rooted in
            let after' =
              subst
                (λ x.
                  (p : ℕ)
                  → translation mapper storage x p
                    ≡ (if p == page then some (frame, flags) else translation mapper storage s p))
                same after in
            let q = page-range page vp in
            let access = access_of mapper storage s' in
            let here : translation mapper storage s' page ≡ some (frame, flags) =
              ground (arith, after' page) in
            let (t', gone) = mapper.unmap-mapped access page frame flags s'.tables vp here in
            let (flags', was, rest) = mapper.unmap-some access page frame s'.tables t' vp gone in
            (
              record s' { tables = t' },
              ground (arith, q, r, gone),
              λ p. ground (arith, rest p, after' p, before),
            )
      ]

  -- With the tables in aligned storage, mapping a device page ends in one of two ways. It succeeds: the
  -- frame is aligned and the memory map calls it device memory, the page was not mapped, and now it
  -- translates to the frame, writable, uncached and not executable; no other page has changed. Or it
  -- fails: no translation has changed; and it says that the frame is misaligned exactly if it is, and
  -- that it is no device memory only if it is none, else the mapper has refused the page.
  pub map_device_page_lem :
      (map : MemoryMap) (s : Paging mapper storage) (root_frame : OwnedFrame) (page frame : ℕ)
      → storage % page_size ≡ 0
      → IsRooted s root_frame
      → IsPage page
      → frame < 2 ^ 52
      → ((s' : Paging mapper storage) × (map_device_page mapper storage map s page frame
            ≡ (ok tt, s'))
          × (frame % page_size ≡ 0)
          × (global_kind_at map frame ≡ some device)
          × IsMapped s s' page frame
              (record { present = true; writable = true; no_cache = true; no_execute = true }))
        ⊎ ((e : PagingError) × (s' : Paging mapper storage) × (map_device_page mapper storage map s
                page frame
              ≡ (err e, s'))
            × IsUnchanged s s'
            × (((e ≡ range misaligned) × (frame % page_size ≢ 0))
                ⊎ (((e ≡ not_device_memory)
                      × (frame % page_size ≡ 0)
                      × (global_kind_at map frame ≢ some device))
                    ⊎ ((e ≡ mapping_failed)
                        × (frame % page_size ≡ 0)
                        × (global_kind_at map frame ≡ some device)))))
  unfolding map_device_page
  map_device_page_lem map s root_frame page frame aligned v vp low =
      elim (Bool-cases (frame % page_size == 0)) [
        | inr off ↦ inr (
          range misaligned,
          s,
          rw (map_device_page, off) refl,
          λ p. refl,
          inl (refl, ==→ne (frame % page_size) 0 off),
        )
        | inl even ↦ elim (Bool-cases (is_device (global_kind_at map frame))) [
          | inr none_there ↦ inr (
            not_device_memory,
            s,
            rw (map_device_page, even, none_there) refl,
            λ p. refl,
            inr (
                inl (
                  refl,
                  ==→eq (frame % page_size) 0 even,
                  not_device (global_kind_at map frame) none_there,
                )),
          )
          | inl there ↦
              let z = ==→eq (frame % page_size) 0 even in
              elim (map_page_lem s root_frame page frame device_flags aligned v vp (z, low) refl) [
                | inl (s', e, _, m) ↦ inl (
                  s',
                  rw (map_device_page, even, there) e,
                  z,
                  device_kind (global_kind_at map frame) there,
                  m,
                )
                | inr (s', e, _, same) ↦ inr (
                  mapping_failed,
                  s',
                  rw (map_device_page, even, there) e,
                  same,
                  inr (inr (refl, z, device_kind (global_kind_at map frame) there)),
                )
              ]
        ]
      ]
