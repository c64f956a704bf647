-- ===== src/Console/Emergency.antt =====
-- src/console/mod.rs: `EmergencyWriter`, the output of fatal exceptions: which cells it draws.
use agnost_os.Base.{
  ℕ, ◌+◌, ◌/◌, ◌≤◌, ◌<◌, ◌≡◌, ◌⊎◌, refl, true, false, List, [], ◌∷◌, arith, leb, ◌==◌,
  if◌then◌else◌, saturating, All, Bool-cases, inl, inr, u64_max, tests,
}
use agnost_os.Console.{Cell, newline}

-- A glyph that is drawn, and where.
pub record Glyph : Type 0 where
  pub character : ℕ
  pub cell : Cell

pub record EmergencyWriter : Type 0 where
  pub width : ℕ
  pub height : ℕ
  pub column : ℕ
  pub row : ℕ

-- The loop of `write_str`, on a screen of so many columns and rows: the glyphs drawn, in order, and
-- the cell behind them.
unfoldable pub write_cells : ℕ → ℕ → ℕ → ℕ → List ℕ → List Glyph × ℕ × ℕ
write_cells columns rows column row [] = ([], column, row)
write_cells columns rows column row (ch ∷ s) = elim (ch == newline) [
  | true ↦ write_cells columns rows 0 (saturating (row + 1)) s
  | false ↦
      let column' = if leb columns column then 0 else column in
      let row' = if leb columns column then saturating (row + 1) else row in
      elim (leb rows row') [
        | true ↦ ([], column', row')
        | false ↦
            let (glyphs, column'', row'') = write_cells columns rows (column' + 1) row' s in
            (
              record { character = ch; cell = record { column = column'; row = row' } } ∷ glyphs,
              column'',
              row'',
            )
      ]
]

-- `cell_width` and `cell_height` are those of the smallest font.
unfoldable pub emergency_write : ℕ → ℕ → EmergencyWriter → List ℕ → List Glyph × EmergencyWriter
unfolding write_cells
emergency_write cell_width cell_height w text =
    let (glyphs, column, row) =
      write_cells (w.width / cell_width) (w.height / cell_height) w.column w.row text in
    (glyphs, record w { column = column; row = row })

abbrev pub OnScreen : ℕ → ℕ → Glyph → Type 0
OnScreen columns rows g = (g.cell.column < columns) × (g.cell.row < rows)

-- In reading order, at a cell or behind it.
abbrev pub AtOrBehind : ℕ → ℕ → Glyph → Type 0
AtOrBehind column row g = (row < g.cell.row) ⊎ ((row ≡ g.cell.row) × (column ≤ g.cell.column))

-- Each glyph stands behind the one before it.
abbrev pub InOrder : List Glyph → Type 0
InOrder [] = Unit
InOrder (g ∷ gs) = All (AtOrBehind (g.cell.column + 1) g.cell.row) gs × InOrder gs

All-weaken :
    (P Q : Glyph → Type 0) (f : (g : Glyph) → P g → Q g) (gs : List Glyph) → All P gs → All Q gs
All-weaken P Q f [] h = tt
All-weaken P Q f (g ∷ gs) (p, h) = (f g p, All-weaken P Q f gs h)

module _ (columns rows : ℕ) (some_column : 0 < columns) (bound : rows ≤ u64_max) where
  abbrev Drawn : ℕ → ℕ → List Glyph → Type 0
  Drawn column row gs = All (λ g. OnScreen columns rows g × AtOrBehind column row g) gs × InOrder gs

  Drawn-later :
      (column row column' row' : ℕ) (gs : List Glyph)
      → ((row < row') ⊎ ((row ≡ row') × (column ≤ column')))
      → Drawn column' row' gs
      → Drawn column row gs
  Drawn-later column row column' row' gs le (h, o) = (
    All-weaken (λ g. OnScreen columns rows g × AtOrBehind column' row' g)
        (λ g. OnScreen columns rows g × AtOrBehind column row g) (λ g p. (p.0, ground arith)) gs h,
    o,
  )

  -- Past the last row nothing is drawn.
  write_cells-past :
      (column row : ℕ) (s : List ℕ) → rows ≤ row → (write_cells columns rows column row s).0 ≡ []
  unfolding write_cells
  write_cells-past column row [] le = refl
  write_cells-past column row (ch ∷ s) le = elim (Bool-cases (ch == newline)) [
    | inl end ↦ rw (write_cells, end) (write_cells-past 0 (saturating (row + 1)) s (ground arith))
    | inr letter ↦ rw (write_cells, letter) (ground arith)
  ]

  Drawn-glyph :
      (ch column row : ℕ) (gs : List Glyph)
      → column < columns
      → row < rows
      → Drawn (column + 1) row gs
      → Drawn column row
          (record { character = ch; cell = record { column = column; row = row } } ∷ gs)
  Drawn-glyph ch column row gs c r d =
      let (later, _) = Drawn-later column row (column + 1) row gs (inr (refl, omega arith)) d in
      (
        (((c, r), inr (refl, omega arith)), later),
        (
          All-weaken (λ g. OnScreen columns rows g × AtOrBehind (column + 1) row g)
              (AtOrBehind (column + 1) row) (λ g p. p.1) gs d.0,
          d.1,
        ),
      )

  write_cells-Drawn :
      (column row : ℕ) (s : List ℕ) → Drawn column row (write_cells columns rows column row s).0
  unfolding write_cells
  write_cells-Drawn column row [] = (tt, tt)
  write_cells-Drawn column row (ch ∷ s) = elim (Bool-cases (leb rows row)) [
    | inl past ↦ rw (write_cells-past column row (ch ∷ s) (omega tests)) (tt, tt)
    | inr inside ↦
        let next : saturating (row + 1) ≡ row + 1 = ground arith in
        elim (Bool-cases (ch == newline)) [
          | inl end ↦
              rw (write_cells, end, next)
                (Drawn-later column row 0 (row + 1) (write_cells columns rows 0 (row + 1) s).0
                  (inl (omega arith)) (write_cells-Drawn 0 (row + 1) s))
          | inr letter ↦ elim (Bool-cases (leb columns column)) [
            | inr fits ↦
                rw (write_cells, letter, fits, inside, fits)
                  (Drawn-glyph ch column row _ (omega tests) (omega tests)
                    (write_cells-Drawn (column + 1) row s))
            | inl full ↦ elim (Bool-cases (leb rows (row + 1))) [
              | inl last ↦ rw (write_cells, letter, full, next, last) (tt, tt)
              | inr more ↦
                  rw (write_cells, letter, full, next, more, full, next)
                    (Drawn-later column row 0 (row + 1)
                      (record { character = ch; cell = record { column = 0; row = row + 1 } }
                        ∷ (write_cells columns rows (0 + 1) (row + 1) s).0)
                      (inl (omega arith))
                      (Drawn-glyph ch 0 (row + 1) _ (omega arith) (omega tests)
                        (write_cells-Drawn (0 + 1) (row + 1) s)))
            ]
          ]
        ]
  ]

-- On a screen of at least one column, whatever text is written from whatever cell, each glyph that is
-- drawn lies on the screen, at that cell or behind it, and each behind the one before it: none is
-- drawn over another.
pub emergency_write_lem :
    (cell_width cell_height : ℕ) (w : EmergencyWriter) (text : List ℕ)
    → 0 < w.width / cell_width
    → w.height / cell_height ≤ u64_max
    → All
        (λ g.
          OnScreen (w.width / cell_width) (w.height / cell_height) g × AtOrBehind w.column w.row g)
        (emergency_write cell_width cell_height w text).0
      × InOrder (emergency_write cell_width cell_height w text).0
unfolding emergency_write
emergency_write_lem cell_width cell_height w text pos bound =
    write_cells-Drawn (w.width / cell_width) (w.height / cell_height) pos bound w.column w.row text
