-- ===== src/Paging/Layout.antt =====
-- `VirtualMemoryLayout::new`: the five windows.
use agnost_os.Base.{ℕ, ◌+◌, ◌^◌, ◌≤◌, ◌<◌, ◌≡◌, ◌≢◌, refl, true, arith, List, [], ◌∷◌, ok, All}
use agnost_os.Paging.{
  VirtualRange, VirtualMemoryLayout, layout, kernel_base, heap_base, framebuffer_base, mmio_base,
  stack_base, is_canonical, recursive_index,
}
use agnost_os.Paging.Mapper.{root_slot}

abbrev window : ℕ → VirtualRange
window base = record { start = base; length = 2 ^ 40 }

abbrev pub windows : VirtualMemoryLayout → List VirtualRange
windows l = l.kernel ∷ l.heap ∷ l.framebuffer ∷ l.mmio ∷ l.stacks ∷ []

abbrev pub IsIn : VirtualRange → ℕ → Type 0
IsIn r x = (r.start ≤ x) × (x < r.start + r.length)

abbrev Apart : VirtualRange → VirtualRange → Type 0
Apart a b = a.start + a.length ≤ b.start

-- In order, one behind the other.
abbrev pub IsInOrder : List VirtualRange → Type 0
IsInOrder [] = Unit
IsInOrder (r ∷ rs) = All (Apart r) rs × IsInOrder rs

-- The layout is accepted. Its five windows follow one another without a common address, and each of
-- their addresses is canonical and outside the slot of the root table that reaches the tables.
pub layout_lem :
    (l : VirtualMemoryLayout) × (layout ≡ ok l)
    × IsInOrder (windows l)
    × All
        (λ r. (x : ℕ) → IsIn r x → (is_canonical x ≡ true) × (root_slot x ≢ recursive_index))
        (windows l)
unfolding layout
layout_lem = (
  record {
    kernel = window kernel_base;
    heap = window heap_base;
    framebuffer = window framebuffer_base;
    mmio = window mmio_base;
    stacks = window stack_base;
  },
  refl,
  omega arith,
  (
    λ x i. (ground arith, λ e. omega arith),
    (
      λ x i. (ground arith, λ e. omega arith),
      (
        λ x i. (ground arith, λ e. omega arith),
        (λ x i. (ground arith, λ e. omega arith), (λ x i. (ground arith, λ e. omega arith), tt)),
      ),
    ),
  ),
)
