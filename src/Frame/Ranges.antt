-- ===== src/Frame/Ranges.antt =====
-- The addresses that a table of ranges covers, and tables whose ranges are in order and apart.
use agnost_os.Base.{
  ℕ, ◌+◌, ◌*◌, ◌≤◌, ◌<◌, ◌≡◌, refl, ap, Bool, true, false, ◌||◌, List, [], ◌∷◌, ◌++◌, arith, ltb,
  Bool-cases, inl, inr, length, get_or, All, u64_max, ltb→lt, ltb→le,
}
use agnost_os.Memory.Pieces.{between}
use agnost_os.Frame.{FreeRange, find_index, free_end, page_size}

abbrev pub stop : FreeRange → ℕ
stop r = r.start + r.frames * page_size

unfoldable pub covers : List FreeRange → ℕ → Bool
covers [] x = false
covers (r ∷ rs) x = between r.start (stop r) x || covers rs x

unfoldable pub sum_frames : List FreeRange → ℕ
sum_frames [] = 0
sum_frames (r ∷ rs) = r.frames + sum_frames rs

-- The ranges are not empty, begin at `low` or later, follow one another without overlap, and end
-- before the last address.
abbrev pub IsSorted : ℕ → List FreeRange → Type 0
IsSorted low [] = Unit
IsSorted low (r ∷ rs) = (low ≤ r.start) × (0 < r.frames) × (stop r < u64_max) × IsSorted (stop r) rs

-- Where the last range ends.
abbrev pub last_stop : ℕ → List FreeRange → ℕ
last_stop low [] = low
last_stop low (r ∷ rs) = last_stop (stop r) rs

pub free_end-stop : (r : FreeRange) → stop r < u64_max → free_end r ≡ stop r
free_end-stop r h = ground arith

pub covers-append :
    (xs ys : List FreeRange) (x : ℕ) → covers (xs ++ ys) x ≡ (covers xs x || covers ys x)
unfolding covers
covers-append [] ys x = refl
covers-append (r ∷ rs) ys x = ground (arith, covers-append rs ys x)

pub sum_frames-append :
    (xs ys : List FreeRange) → sum_frames (xs ++ ys) ≡ sum_frames xs + sum_frames ys
unfolding sum_frames
sum_frames-append [] ys = omega arith
sum_frames-append (r ∷ rs) ys = omega (arith, sum_frames-append rs ys)

pub IsSorted-append :
    (low : ℕ) (xs ys : List FreeRange)
    → IsSorted low xs
    → IsSorted (last_stop low xs) ys
    → IsSorted low (xs ++ ys)
IsSorted-append low [] ys h k = k
IsSorted-append low (r ∷ rs) ys (a, b, c, h) k = (a, b, c, IsSorted-append (stop r) rs ys h k)

pub IsSorted-left : (low : ℕ) (xs ys : List FreeRange) → IsSorted low (xs ++ ys) → IsSorted low xs
IsSorted-left low [] ys h = tt
IsSorted-left low (r ∷ rs) ys (a, b, c, h) = (a, b, c, IsSorted-left (stop r) rs ys h)

pub IsSorted-right :
    (low : ℕ) (xs ys : List FreeRange) → IsSorted low (xs ++ ys) → IsSorted (last_stop low xs) ys
IsSorted-right low [] ys h = h
IsSorted-right low (r ∷ rs) ys (a, b, c, h) = IsSorted-right (stop r) rs ys h

pub IsSorted-lower :
    (low low' : ℕ) (xs : List FreeRange) → low' ≤ low → IsSorted low xs → IsSorted low' xs
IsSorted-lower low low' [] le h = tt
IsSorted-lower low low' (r ∷ rs) le (a, b, c, h) = (omega arith, b, c, h)

-- Below its lower bound a sorted table covers nothing.
pub covers-below :
    (low : ℕ) (xs : List FreeRange) (x : ℕ) → IsSorted low xs → x < low → covers xs x ≡ false
unfolding covers
covers-below low [] x h lt = refl
covers-below low (r ∷ rs) x (a, b, c, h) lt =
    let e = covers-below (stop r) rs x h (omega arith) in ground (arith, e)

pub last_stop-le : (low : ℕ) (xs : List FreeRange) → IsSorted low xs → low ≤ last_stop low xs
last_stop-le low [] h = omega arith
last_stop-le low (r ∷ rs) (a, b, c, h) = omega (arith, last_stop-le (stop r) rs h)

-- At and past the end of the last range neither.
pub covers-above :
    (low : ℕ) (xs : List FreeRange) (x : ℕ)
    → IsSorted low xs
    → last_stop low xs ≤ x
    → covers xs x ≡ false
unfolding covers
covers-above low [] x h le = refl
covers-above low (r ∷ rs) x (a, b, c, h) le =
    let e = covers-above (stop r) rs x h le in
    let m = last_stop-le (stop r) rs h in ground (arith, e, m)

-- Where `release` finds its index: a table split in the ranges that begin before the address and
-- the rest, whose first begins at it or later.
pub record IsSplit (ranges : List FreeRange) (address : ℕ) (xs ys : List FreeRange) : Type 0 where
  pub whole : ranges ≡ xs ++ ys
  pub index : find_index ranges address ≡ length xs
  pub before : All (λ r. r.start < address) xs
  pub later :
      ltb 0 (length ys) ≡ true → address ≤ (get_or ys 0 (record { start = 0; frames = 0 })).start

pub find_index-IsSplit :
    (ranges : List FreeRange) (address : ℕ)
    → (xs : List FreeRange) × (ys : List FreeRange) × IsSplit ranges address xs ys
unfolding find_index
find_index-IsSplit [] address =
    ([], [], record { whole = refl; index = refl; before = tt; later = λ e. cc })
find_index-IsSplit (r ∷ rs) address = elim (Bool-cases (ltb r.start address)) [
  | inl early ↦
      let (xs, ys, h) = find_index-IsSplit rs address in
      (
        r ∷ xs,
        ys,
        record {
          whole = ap (λ zs. r ∷ zs) h.whole;
          index = rw (early, h.index) refl;
          before = (ltb→lt r.start address early, h.before);
          later = h.later;
        },
      )
  | inr late ↦ (
    [],
    r ∷ rs,
    record {
      whole = refl;
      index = rw late refl;
      before = tt;
      later = λ e. ltb→le r.start address late;
    },
  )
]
