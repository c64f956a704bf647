-- ===== src/Console/Editing.antt =====
-- src/console/mod.rs: the editable input line, its cursor, and how it is redrawn.
use agnost_os.Base.{
  ℕ, zero, suc, ◌+◌, ◌-◌, ◌*◌, ◌/◌, ◌%◌, min, max, Option, none, some, List, [], ◌∷◌, ◌++◌, ltb,
  leb, ◌==◌, if◌then◌else◌, length, get_elem?,
}
use agnost_os.Console.{
  KWriter, Cell, RasterHeight, text, rectangle, black, prompt, max_input_chars, font_h, font_w,
}

-- `insert_char_at`: before the character at the cursor, or at the end.
unfoldable pub insert_char_at : List ℕ → ℕ → ℕ → List ℕ
insert_char_at line zero ch = ch ∷ line
insert_char_at [] (suc cursor) ch = ch ∷ []
insert_char_at (c ∷ line) (suc cursor) ch = c ∷ insert_char_at line cursor ch

-- Drops the character at an index.
unfoldable pub drop_at : List ℕ → ℕ → List ℕ
drop_at [] i = []
drop_at (c ∷ line) zero = line
drop_at (c ∷ line) (suc i) = c ∷ drop_at line i

-- `remove_char_at`: the character before the cursor.
unfoldable pub remove_char_at : List ℕ → ℕ → List ℕ
unfolding drop_at
remove_char_at line cursor =
    let cursor' = min cursor (length line) in
    if cursor' == 0 then line else drop_at line (cursor' - 1)

unfoldable pub move_cursor_left : ℕ → ℕ
move_cursor_left cursor = cursor - 1

unfoldable pub move_cursor_right : ℕ → ℕ → ℕ
move_cursor_right cursor line_length = min (cursor + 1) line_length

-- `cell_position`: column and row offset.
unfoldable pub cell_position : ℕ → ℕ → ℕ → ℕ × ℕ
cell_position index cell_width framebuffer_width =
    let pixel_x = index * cell_width in
    (pixel_x % framebuffer_width / cell_width, pixel_x / framebuffer_width)

-- `strip_prefix`.
unfoldable pub strip_prefix : List ℕ → List ℕ → Option (List ℕ)
strip_prefix [] s = some s
strip_prefix (p ∷ ps) [] = none
strip_prefix (p ∷ ps) (c ∷ s) = if p == c then strip_prefix ps s else none

abbrev pub or_empty : Option (List ℕ) → List ℕ
or_empty none = []
or_empty (some s) = s

-- The row on which the input line begins.
unfoldable pub start_row : KWriter → ℕ
start_row w = elim w.glyph_cells [ [] ↦ w.row | cell ∷ _ ↦ cell.row ]

module _ (raster_width : RasterHeight → ℕ) where
  -- The loop over the characters of the line, from an index on.
  unfoldable pub draw_glyphs : KWriter → ℕ → ℕ → List ℕ → KWriter
  draw_glyphs w start index [] = w
  draw_glyphs w start index (ch ∷ s) =
      let (column, row_offset) = cell_position index (font_w raster_width w.font_size) w.width in
      let row = start + row_offset in
      draw_glyphs
        (record w {
          drawn = text (ch ∷ []) column row w.font_size ∷ w.drawn;
          glyph_cells = w.glyph_cells ++ record { column = column; row = row } ∷ [];
        })
        start (index + 1) s

  abbrev pub last_cell : List Cell → Option Cell
  last_cell [] = none
  last_cell (c ∷ []) = some c
  last_cell (c ∷ (d ∷ ds)) = last_cell (d ∷ ds)

  -- Behind the last glyph, or at the start of the next row if no glyph fits there.
  unfoldable pub behind : KWriter → Cell → KWriter
  behind w cell =
      if ltb w.width ((cell.column + 1 + 1) * font_w raster_width w.font_size)
      then record w { column = 0; row = cell.row + 1 }
      else record w { column = cell.column + 1; row = cell.row }

  unfoldable pub set_input_cursor : KWriter → KWriter
  set_input_cursor w = elim (get_elem? w.glyph_cells (length prompt + w.input_cursor)) [
    | some cell ↦ record w { column = cell.column; row = cell.row }
    | none ↦ elim (last_cell w.glyph_cells) [ some cell ↦ behind w cell | none ↦ w ]
  ]

  -- The first part of `redraw_input_line`: the rows of the line are erased, and it gets its text.
  unfoldable pub erase_input : KWriter → ℕ → List ℕ → ℕ → KWriter
  erase_input w start line cursor =
      let fh = font_h w.font_size in
      let fw = font_w raster_width w.font_size in
      let total_chars = length prompt + length line in
      let rows = (total_chars * fw + (w.width - 1)) / w.width in
      record w {
        drawn = rectangle 0 (start * fh) w.width (fh * max rows 1) black ∷ w.drawn;
        current_line = prompt ++ line;
        input_cursor = cursor;
        glyph_cells = [];
      }

  unfoldable pub redraw_input_line : KWriter → List ℕ → ℕ → KWriter
  unfolding start_row erase_input
  redraw_input_line w line cursor =
      let start = start_row w in
      let redrawn = draw_glyphs (erase_input w start line cursor) start 0 (prompt ++ line) in
      set_input_cursor (record redrawn { row = start })

  unfoldable pub redraw_current_input : KWriter → KWriter
  redraw_current_input w =
      redraw_input_line w (or_empty (strip_prefix prompt w.current_line)) w.input_cursor

  -- `backspace` and `insert_char`, on the writer and the shell's line.
  unfoldable pub backspace : KWriter → List ℕ → KWriter × List ℕ
  backspace w line =
      let cursor = min w.input_cursor (length line) in
      if cursor == 0
      then (record w { input_cursor = cursor }, line)
      else (let line' = remove_char_at line cursor in
          (redraw_input_line w line' (cursor - 1), line'))

  unfoldable pub insert_char : KWriter → List ℕ → ℕ → KWriter × List ℕ
  insert_char w line ch =
      if leb max_input_chars (length line)
      then (w, line)
      else (let cursor = min w.input_cursor (length line) in
          let line' = insert_char_at line cursor ch in
          (redraw_input_line w line' (cursor + 1), line'))

  unfoldable pub reset_input_cursor : KWriter → KWriter
  reset_input_cursor w = record w { input_cursor = 0 }

  unfoldable pub arrow_right : KWriter → KWriter
  arrow_right w = redraw_current_input (record w {
    input_cursor = move_cursor_right w.input_cursor (length w.current_line - length prompt);
  })

  unfoldable pub arrow_left : KWriter → KWriter
  arrow_left w = redraw_current_input (record w { input_cursor = move_cursor_left w.input_cursor })
