-- ===== src/Paging/Range.antt =====
-- `VirtualRange::new`: which ranges are accepted, and whether their addresses are canonical.
use agnost_os.Base.{
  ℕ, ◌+◌, ◌-◌, ◌%◌, ◌≤◌, ◌<◌, ◌≡◌, ◌⊎◌, inl, inr, true, false, arith, leb, Bool-cases, ok, u64_max,
}
use agnost_os.Memory.{page_size}
use agnost_os.Paging.{VirtualRange, new_range, is_canonical, low_canonical_max, high_canonical_min}

-- What `new` looks at.
abbrev pub IsChecked : ℕ → ℕ → Type 0
IsChecked start length =
    (0 < length)
    × (start % page_size ≡ 0)
    × (length % page_size ≡ 0)
    × (start + (length - 1) ≤ u64_max)
    × (is_canonical start ≡ true)
    × (is_canonical (start + (length - 1)) ≡ true)

-- A range is accepted, as it was given, exactly when it is not empty, its start and length are
-- multiples of the page size, its last address is below 2^64 and its first and last address are
-- canonical. Then either all its addresses are canonical, or it spans the whole gap between the
-- two halves.
pub new_range_lem :
    (start length : ℕ)
    → (IsChecked start length
        → new_range start length ≡ ok (record { start = start; length = length }))
      × ((r : VirtualRange) → new_range start length ≡ ok r → IsChecked start length)
      × (IsChecked start length
          → ((x : ℕ) → start ≤ x → x < start + length → is_canonical x ≡ true)
            ⊎ ((start ≤ low_canonical_max) × (high_canonical_min < start + length)))
unfolding new_range
new_range_lem start length = (
  λ h. ground arith,
  λ r h. ground arith,
  λ h. elim (Bool-cases (leb (start + (length - 1)) low_canonical_max)) [
    | inl low ↦ inl (λ x from to. ground arith)
    | inr past ↦ elim (Bool-cases (leb high_canonical_min start)) [
      | inl high ↦ inl (λ x from to. ground arith)
      | inr below ↦ inr (ground arith, ground arith)
    ]
  ],
)

-- A range from the lower half to the upper is accepted, with all the addresses between the halves,
-- which are not canonical.
pub new_range-gap :
    (start length : ℕ)
    → start % page_size ≡ 0
    → length % page_size ≡ 0
    → start ≤ low_canonical_max
    → high_canonical_min < start + length
    → start + length ≤ u64_max
    → (new_range start length ≡ ok (record { start = start; length = length }))
      × ((x : ℕ)
          → low_canonical_max < x
          → x < high_canonical_min
          → (start ≤ x) × (x < start + length) × (is_canonical x ≡ false))
unfolding new_range
new_range-gap start length a b low high bound = (ground arith, λ x l h. ground arith)
