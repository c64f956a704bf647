-- ===== src/Console/Cells.antt =====
-- `cell_position`: the cells of the redrawn input line, against those of `write_str`.
use agnost_os.Base.{ℕ, ◌+◌, ◌*◌, ◌/◌, ◌%◌, ◌≤◌, ◌<◌, ◌≡◌, refl, ap, arith}
use native.Mathlib.Nat.{
  add-mul-mod_self_left, mul-div-mul_right, mul-div_cancel, mod-lt, mod-add-div, mod-eq_of_lt,
  div-eq_of_lt,
}
use agnost_os.Console.Editing.{cell_position}

scaled_mod : (n c w : ℕ) → 0 < w → 0 < c → n * w % (c * w) ≡ n % c * w
scaled_mod n c w pos some_column =
    let lt = mod-lt n some_column in
    let below : n % c * w < c * w = grind arith in
    let split : n * w ≡ n % c * w + c * w * (n / c) =
      let e = ap (λ (t : ℕ). t * w) (mod-add-div n c) in grind arith in
    rw (split, add-mul-mod_self_left (n % c * w) (c * w) (n / c)) (mod-eq_of_lt below)

-- On a screen whose width is a whole number of cells, the position of a character is its column and
-- row in a grid of that many columns, and its glyph lies within the width.
pub cell_position_lem :
    (index cell_width columns : ℕ)
    → 0 < cell_width
    → 0 < columns
    → (cell_position index cell_width (columns * cell_width) ≡ (index % columns, index / columns))
      × ((index % columns + 1) * cell_width ≤ columns * cell_width)
unfolding cell_position
cell_position_lem index cell_width columns pos some_column = (
  rw
      (
        cell_position,
        scaled_mod index columns cell_width pos some_column,
        mul-div-mul_right index columns pos,
        mul-div_cancel (index % columns) pos,
      )
      refl,
  let lt = mod-lt index some_column in grind arith,
)

-- On any other screen the first character that does not fit the first row is placed in it all the
-- same, over the right edge.
pub cell_position-over_edge :
    (cell_width columns rest : ℕ)
    → 0 < rest
    → rest < cell_width
    → (cell_position columns cell_width (columns * cell_width + rest) ≡ (columns, 0))
      × (columns * cell_width + rest < (columns + 1) * cell_width)
unfolding cell_position
cell_position-over_edge cell_width columns rest pos lt = (
  rw
      (
        cell_position,
        mod-eq_of_lt {n = columns * cell_width} {m = columns * cell_width + rest} (omega arith),
        div-eq_of_lt {n = columns * cell_width} {m = columns * cell_width + rest} (omega arith),
        mul-div_cancel columns {n = cell_width} (omega arith),
      )
      refl,
  grind arith,
)
