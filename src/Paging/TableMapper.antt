-- ===== src/Paging/TableMapper.antt =====
-- A mapper whose tables are a function, to run src/paging.rs on: it meets what is asked of one.
use agnost_os.Base.{
  arith, ℕ, ◌≡◌, refl, sym, ap, Bool, true, false, Option, none, some, ◌==◌, if◌then◌else◌,
  Option-cases, inl, inr,
}
use agnost_os.Paging.{PageTableArena}
use agnost_os.Paging.Mapper.{Mapper, PageTableFlags, Access, Allocate, IsPage, IsFrame}

-- The translations as a function and the slots of the root table that have been set; every new mapping
-- takes one frame of the arena.
abbrev pub Table : Type 0
Table = (ℕ → Option (ℕ × PageTableFlags)) × (ℕ → Option (ℕ × PageTableFlags))

unfoldable pub table_map :
    Access
    → Allocate
    → ℕ
    → ℕ
    → PageTableFlags
    → PageTableArena
    → Table
    → Bool × PageTableArena × Table
table_map access allocate page frame flags arena t = elim (t.0 page) [
  | some _ ↦ (false, arena, t)
  | none ↦ (true, (allocate arena).1, (λ p. if p == page then some (frame, flags) else t.0 p, t.1))
]

unfoldable pub table_unmap : Access → ℕ → Table → Option ℕ × Table
table_unmap access page t = elim (t.0 page) [
  | none ↦ (none, t)
  | some (frame, flags) ↦ (some frame, (λ p. if p == page then none else t.0 p, t.1))
]

pub table_map-ok :
    (access : Access) (allocate : Allocate) (page frame : ℕ) (flags : PageTableFlags)
    (arena arena' : PageTableArena) (t t' : Table)
    → IsPage page
    → IsFrame frame
    → flags.present ≡ true
    → table_map access allocate page frame flags arena t ≡ (true, arena', t')
    → (t.0 page ≡ none) × ((p : ℕ) → t'.0 p ≡ (if p == page then some (frame, flags) else t.0 p))
unfolding table_map
table_map-ok access allocate page frame flags arena arena' t t' vp vf vr h =
    elim (Option-cases (t.0 page)) [
      | inr (x, e) ↦ let h' = rw (e, table_map) at h in absurd (cc)
      | inl e ↦ let h' = rw (e, table_map) at h in (e, λ p. ap (λ o. o.2.0 p) (sym h'))
    ]

pub table_map-err :
    (access : Access) (allocate : Allocate) (page frame : ℕ) (flags : PageTableFlags)
    (arena arena' : PageTableArena) (t t' : Table)
    → IsPage page
    → IsFrame frame
    → table_map access allocate page frame flags arena t ≡ (false, arena', t')
    → (p : ℕ) → t'.0 p ≡ t.0 p
unfolding table_map
table_map-err access allocate page frame flags arena arena' t t' vp vf h p =
    elim (Option-cases (t.0 page)) [
      | inr (x, e) ↦ let h' = rw (e, table_map) at h in ap (λ o. o.2.0 p) (sym h')
      | inl e ↦ let h' = rw (e, table_map) at h in absurd (cc)
    ]

pub table_map-arena :
    (P : PageTableArena → Type 0) (access : Access) (allocate : Allocate) (page frame : ℕ)
    (flags : PageTableFlags) (arena : PageTableArena) (t : Table)
    → ((a : PageTableArena) → P a → P (allocate a).1)
    → P arena
    → P (table_map access allocate page frame flags arena t).1
unfolding table_map
table_map-arena P access allocate page frame flags arena t step h = elim (Option-cases (t.0 page)) [
  | inr (x, e) ↦ rw (e, table_map) h
  | inl e ↦ rw (e, table_map) (step arena h)
]

pub table_unmap-some :
    (access : Access) (page frame : ℕ) (t t' : Table)
    → IsPage page
    → table_unmap access page t ≡ (some frame, t')
    → (flags : PageTableFlags) × (t.0 page ≡ some (frame, flags))
      × ((p : ℕ) → t'.0 p ≡ (if p == page then none else t.0 p))
unfolding table_unmap
table_unmap-some access page frame t t' vp h = elim (Option-cases (t.0 page)) [
  | inl e ↦ let h' = rw (e, table_unmap) at h in absurd (cc)
  | inr ((f, flags), e) ↦
      let h' = rw (e, table_unmap) at h in (flags, cc, λ p. ap (λ o. o.1.0 p) (sym h'))
]

pub table_unmap-mapped :
    (access : Access) (page frame : ℕ) (flags : PageTableFlags) (t : Table)
    → IsPage page
    → t.0 page ≡ some (frame, flags)
    → (t' : Table) × (table_unmap access page t ≡ (some frame, t'))
unfolding table_unmap
table_unmap-mapped access page frame flags t vp e =
    ((λ p. if p == page then none else t.0 p, t.1), rw (table_unmap, e) refl)

pub table_unmap-none :
    (access : Access) (page : ℕ) (t t' : Table)
    → IsPage page
    → table_unmap access page t ≡ (none, t')
    → (p : ℕ) → t'.0 p ≡ t.0 p
unfolding table_unmap
table_unmap-none access page t t' vp h p = elim (Option-cases (t.0 page)) [
  | inl e ↦ let h' = rw (e, table_unmap) at h in ap (λ o. o.1.0 p) (sym h')
  | inr ((f, flags), e) ↦ let h' = rw (e, table_unmap) at h in absurd (cc)
]

abbrev pub table_mapper : Mapper
table_mapper = record {
  Tables = Table;
  table_size = 4096;
  empty_tables = (λ p. none, λ slot. none);
  map_to = table_map;
  unmap = table_unmap;
  set_entry = λ t slot frame flags. (t.0, λ k. if k == slot then some (frame, flags) else t.1 k);
  entry = λ t slot. t.1 slot;
  translate = λ t p. t.0 p;
  translate-empty = λ p. refl;
  map_to-ok = table_map-ok;
  map_to-err = table_map-err;
  map_to-arena = table_map-arena;
  unmap-some = table_unmap-some;
  unmap-mapped = table_unmap-mapped;
  unmap-none = table_unmap-none;
  translate-set_entry = λ t frame p flags. refl;
  entry-set_entry = λ t slot frame flags. ground arith;
}
