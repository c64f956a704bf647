-- ===== src/Console/Zoom.antt =====
-- What zooming makes of the input line.
use agnost_os.Base.{ℕ, ◌≡◌, refl, sym, ap, ◌∙◌, false, List, [], ◌∷◌, ◌++◌, arith, ◌==◌}
use mathlib.Core.List.{append_assoc, append-nil}
use agnost_os.Console.{
  KWriter, Cell, RasterHeight, clear, prompt, newline, next_cell, put_char, write_char, write_str,
}
use agnost_os.Console.Editing.{start_row}
use agnost_os.Console.Browsing.{print_history, zoom}
use agnost_os.Console.Redraw.{Holds}
use agnost_os.Console.Text.{IsLine}

-- A line is written behind the current one, and its glyphs behind those that are there.
pub record Extends (w w' : KWriter) (s : List ℕ) : Type 0 where
  pub current_line : w'.current_line ≡ w.current_line ++ s
  pub history : w'.history ≡ w.history
  pub input_cursor : w'.input_cursor ≡ w.input_cursor
  pub font_size : w'.font_size ≡ w.font_size
  pub new_cells : List Cell
  pub glyph_cells : w'.glyph_cells ≡ w.glyph_cells ++ new_cells

prompt-IsLine : (s : List ℕ) → IsLine s → IsLine (prompt ++ s)
prompt-IsLine s h = (omega arith, (omega arith, h))

module _ (raster_width : RasterHeight → ℕ) where
  pub write_str-Extends :
      (s : List ℕ) (w : KWriter) → IsLine s → Extends w (write_str raster_width w s) s
  unfolding write_str write_char put_char
  write_str-Extends [] w h = record {
    current_line = sym (append-nil w.current_line);
    history = refl;
    input_cursor = refl;
    font_size = refl;
    new_cells = [];
    glyph_cells = sym (append-nil w.glyph_cells);
  }
  write_str-Extends (ch ∷ s) w (not_end, h) =
      let letter : (ch == newline) ≡ false = ground arith in
      rw letter (
        let e = write_str-Extends s (put_char raster_width w ch) h in
        record {
          current_line = e.current_line ∙ append_assoc w.current_line (ch ∷ []) s;
          history = e.history;
          input_cursor = e.input_cursor;
          font_size = e.font_size;
          new_cells = next_cell raster_width w ∷ e.new_cells;
          glyph_cells =
              e.glyph_cells
              ∙ append_assoc w.glyph_cells (next_cell raster_width w ∷ []) e.new_cells;
        })

  pub zoom-Holds :
      (step : RasterHeight → RasterHeight) (w : KWriter) (input : List ℕ)
      → IsLine input
      → Holds (zoom raster_width step w input) input w.input_cursor
  unfolding zoom print_history
  zoom-Holds step w input h =
      let e =
        write_str-Extends (prompt ++ input)
          (print_history
            (record w { font_size = step w.font_size; drawn = clear ∷ w.drawn; current_line = [] }))
          (prompt-IsLine input h) in
      record { shown = e.current_line; cursor_eq = e.input_cursor }

  -- A zoom by any step of the size keeps an input line without a line end, its cursor and the
  -- history. But while the line on the screen has a first glyph, the row that redraws take for its
  -- start stays the row of that glyph in the old size, wherever the history is drawn now.
  pub zoom_lem :
      (step : RasterHeight → RasterHeight) (w : KWriter) (input : List ℕ) (first : Cell)
      (cells : List Cell)
      → IsLine input
      → w.glyph_cells ≡ first ∷ cells
      → let w' = zoom raster_width step w input in
        Holds w' input w.input_cursor
        × (w'.font_size ≡ step w.font_size)
        × (w'.history ≡ w.history)
        × (start_row w' ≡ first.row)
  unfolding zoom print_history start_row
  zoom_lem step w input first cells h at =
      let cleared = record w {
        font_size = step w.font_size;
        drawn = clear ∷ w.drawn;
        current_line = [];
      } in
      let e = write_str-Extends (prompt ++ input) (print_history cleared) (prompt-IsLine input h) in
      let cells_eq : (zoom raster_width step w input).glyph_cells ≡ first ∷ (cells ++ e.new_cells) =
        e.glyph_cells ∙ ap (λ l. l ++ e.new_cells) at in
      (zoom-Holds step w input h, e.font_size, e.history, rw (start_row, cells_eq) refl)
