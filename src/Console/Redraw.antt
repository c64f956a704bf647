-- ===== src/Console/Redraw.antt =====
-- What a redraw of the input line shows and what it leaves alone.
use agnost_os.Base.{ℕ, ◌+◌, ◌≡◌, refl, ◌∙◌, List, [], ◌∷◌, ◌++◌, arith}
use agnost_os.Console.{KWriter, text, RasterHeight, prompt, font_w}
use agnost_os.Console.Editing.{
  draw_glyphs, behind, set_input_cursor, redraw_input_line, cell_position, start_row, erase_input,
}

-- The line and the cursor of a writer.
pub record Holds (w : KWriter) (line : List ℕ) (cursor : ℕ) : Type 0 where
  pub shown : w.current_line ≡ prompt ++ line
  pub cursor_eq : w.input_cursor ≡ cursor

-- What a redraw leaves alone.
pub record Kept (w w' : KWriter) : Type 0 where
  pub current_line : w'.current_line ≡ w.current_line
  pub input_cursor : w'.input_cursor ≡ w.input_cursor
  pub history : w'.history ≡ w.history
  pub history_index : w'.history_index ≡ w.history_index

-- A redraw shows the line with the cursor, and leaves the history alone.
pub record Redrawn (w w' : KWriter) (line : List ℕ) (cursor : ℕ) : Type 0 where
  pub holds : Holds w' line cursor
  pub history : w'.history ≡ w.history
  pub history_index : w'.history_index ≡ w.history_index

module _ (raster_width : RasterHeight → ℕ) where
  draw_glyphs-Kept :
      (s : List ℕ) (w : KWriter) (start index : ℕ)
      → Kept w (draw_glyphs raster_width w start index s)
  unfolding draw_glyphs
  draw_glyphs-Kept [] w start index = record {
    current_line = refl;
    input_cursor = refl;
    history = refl;
    history_index = refl;
  }
  draw_glyphs-Kept (ch ∷ s) w start index =
      let (column, row_offset) = cell_position index (font_w raster_width w.font_size) w.width in
      let row = start + row_offset in
      let w' : KWriter = record w {
        drawn = text (ch ∷ []) column row w.font_size ∷ w.drawn;
        glyph_cells = w.glyph_cells ++ record { column = column; row = row } ∷ [];
      } in
      let k = draw_glyphs-Kept s w' start (index + 1) in
      record {
        current_line = k.current_line;
        input_cursor = k.input_cursor;
        history = k.history;
        history_index = k.history_index;
      }

  set_input_cursor-Kept : (w : KWriter) → Kept w (set_input_cursor raster_width w)
  unfolding set_input_cursor behind
  set_input_cursor-Kept w = ground arith

  pub redraw_input_line-Redrawn :
      (w : KWriter) (line : List ℕ) (cursor : ℕ)
      → Redrawn w (redraw_input_line raster_width w line cursor) line cursor
  unfolding redraw_input_line
  redraw_input_line-Redrawn w line cursor =
      let start = start_row w in
      let erased = erase_input raster_width w start line cursor in
      let k = draw_glyphs-Kept (prompt ++ line) erased start 0 in
      let l =
        set_input_cursor-Kept
          (record (draw_glyphs raster_width erased start 0 (prompt ++ line)) { row = start }) in
      record {
        holds = record {
          shown = l.current_line ∙ k.current_line;
          cursor_eq = l.input_cursor ∙ k.input_cursor;
        };
        history = l.history ∙ k.history;
        history_index = l.history_index ∙ k.history_index;
      }
