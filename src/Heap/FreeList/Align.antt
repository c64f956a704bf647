-- ===== src/Heap/FreeList/Align.antt =====
-- Rounding an address up to a multiple of an alignment.
use agnost_os.Base.{ℕ, ◌+◌, ◌-◌, ◌*◌, ◌%◌, ◌^◌, ◌≤◌, ◌<◌, ◌≡◌, arith}

pub round_down-mod : (n a : ℕ) → 0 < a → (n - n % a) % a ≡ 0
round_down-mod n a h = grind arith

pub round_up-least :
    (start p a : ℕ) → 0 < a → start ≤ p → p % a ≡ 0 → start + (a - 1) - (start + (a - 1)) % a ≤ p
round_up-least start p a h le z = grind arith

-- Below 2^64 a multiple of a power of two has a next one, or 2^64 itself.
pub next_multiple : (p a q : ℕ) → 0 < a → q * a ≡ 2 ^ 64 → p % a ≡ 0 → p < 2 ^ 64 → p + a ≤ 2 ^ 64
next_multiple p a q h e z lt = grind arith
