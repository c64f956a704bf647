-- ===== src/Graphics/Bytes.antt =====
-- Indices of pixels, and three bytes written at one of them.
use agnost_os.Base.{
  ℕ, ◌+◌, ◌*◌, ◌≤◌, ◌<◌, ◌≡◌, ◌∙◌, ◌&&◌, arith, List, ◌==◌, if◌then◌else◌, inl, inr, ◌⊎◌, length,
  length-set, get_or, set, get_or-set,
}
use agnost_os.Graphics.{set_three}

-- A whole row fits before any later row.
pub row-le : (y h s : ℕ) → y < h → y * s + s ≤ s * h
row-le y h s lt = grind arith

pub index-lt : (x y h s : ℕ) → x < s → y < h → y * s + x < s * h
index-lt x y h s a b = omega (arith, row-le y h s b)

row-before : (y h s : ℕ) → y < h → y * s + s ≤ h * s
row-before y h s lt = grind arith

compare-cases : (a b : ℕ) → (a < b) ⊎ ((a ≡ b) ⊎ (b < a))
compare-cases a b = ground arith

same-row : (x a y s : ℕ) → ((y * s + x) == (y * s + a)) ≡ ((y == y) && (a == x))
same-row x a y s = ground arith

-- Two pixels have one index only if they are the same.
pub index-eq :
    (x y a b s : ℕ) → x < s → a < s → ((y * s + x) == (b * s + a)) ≡ ((b == y) && (a == x))
index-eq x y a b s h k = elim (compare-cases b y) [
  | inl lt ↦ let r = row-before b y s lt in ground (arith, r)
  | inr (inl e) ↦ rw e (same-row x a y s)
  | inr (inr gt) ↦ let r = row-before y b s gt in ground (arith, r)
]

pub length-set_three : (bs : List ℕ) (i x y z : ℕ) → length (set_three bs i x y z) ≡ length bs
length-set_three bs i x y z =
    length-set (set (set bs i x) (i + 1) y) (i + 2) z
    ∙ (length-set (set bs i x) (i + 1) y ∙ length-set bs i x)

pub get_or-set_three :
    (bs : List ℕ) (i j x y z : ℕ)
    → i + 3 ≤ length bs
    → get_or (set_three bs i x y z) j 0
      ≡ (if j == i + 2 then z else if j == i + 1 then y else if j == i then x else get_or bs j 0)
get_or-set_three bs i j x y z h =
    let b1 = set bs i x in
    let b2 = set b1 (i + 1) y in
    let l1 = length-set bs i x in
    let l2 = length-set b1 (i + 1) y in
    let e1 = get_or-set bs i j x 0 (omega arith) in
    let e2 = get_or-set b1 (i + 1) j y 0 (omega (arith, l1)) in
    let e3 = get_or-set b2 (i + 2) j z 0 (omega (arith, l1, l2)) in ground (arith, e1, e2, e3)
