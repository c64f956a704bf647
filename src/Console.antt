-- ===== src/Console.antt =====
-- src/console/mod.rs: the writer behind all text output. Its framebuffer appears as its size and as
-- the list of the drawing calls made on it, the latest first; a text is the list of its characters.
-- How wide a character is, is a parameter: `get_raster_width` of the font crate.
pub mod Editing
pub mod Browsing
pub mod Emergency
pub mod Text
pub mod Cells
pub mod Buffer
pub mod Redraw
pub mod Editor
pub mod History
pub mod Recall
pub mod Complete
pub mod Zoom
pub mod Tests
use agnost_os.Base.{
  ℕ, ◌+◌, ◌-◌, ◌*◌, ◌/◌, Bool, true, false, Option, none, some, List, [], ◌∷◌, ◌++◌, ltb, leb, ◌==◌,
  if◌then◌else◌,
}

abbrev pub newline : ℕ
newline = b'\n'

-- `PROMPT`.
abbrev pub prompt : List ℕ
prompt = b'>' ∷ b' ' ∷ []

abbrev pub max_input_chars : ℕ
max_input_chars = 512

-- `RasterHeight` of the font crate.
pub data RasterHeight : Type 0 where
  size16 size20 size24 size32 : RasterHeight

pub data Color : Type 0 where
  white black : Color

-- The calls of `graphics::draw_text`, `draw_rec`, `scroll_up` and `clear_background`.
pub data Drawing : Type 0 where
  text : List ℕ → ℕ → ℕ → RasterHeight → Drawing
  rectangle : ℕ → ℕ → ℕ → ℕ → Color → Drawing
  scroll_up : ℕ → Drawing
  clear : Drawing

pub record Cell : Type 0 where
  pub column : ℕ
  pub row : ℕ

pub record KWriter : Type 0 where
  pub width : ℕ
  pub height : ℕ
  pub drawn : List Drawing
  pub column : ℕ
  pub row : ℕ
  pub glyph_cells : List Cell
  pub history : List (List ℕ)
  pub current_line : List ℕ
  pub input_cursor : ℕ
  pub font_size : RasterHeight
  pub history_index : Option ℕ

abbrev pub font_px : RasterHeight → ℕ
font_px size16 = 16
font_px size20 = 20
font_px size24 = 24
font_px size32 = 32

-- `font_h`, with two pixels between the lines.
abbrev pub font_h : RasterHeight → ℕ
font_h size = font_px size + 2

-- `init`, on a framebuffer of a width and a height.
unfoldable pub init : ℕ → ℕ → KWriter
init width height = record {
  width = width;
  height = height;
  drawn = [];
  column = 0;
  row = 0;
  glyph_cells = [];
  history = [];
  current_line = [];
  input_cursor = 0;
  font_size = size16;
  history_index = none;
}

abbrev pub draw : KWriter → Drawing → KWriter
draw w d = record w { drawn = d ∷ w.drawn }

unfoldable pub set_font_size : KWriter → RasterHeight → KWriter
set_font_size w size = record w { font_size = size }

-- `reset`.
unfoldable pub reset : KWriter → KWriter
reset w = record w {
  drawn = clear ∷ w.drawn;
  column = 0;
  row = 0;
  glyph_cells = [];
  current_line = [];
  input_cursor = 0;
  history_index = none;
}

unfoldable pub check_scroll : KWriter → ℕ → KWriter
check_scroll w fh =
    let threshold = w.height - 3 * fh in
    let y = w.row * font_h w.font_size in
    if leb threshold y
    then record w { drawn = scroll_up (y - threshold + fh) ∷ w.drawn; row = (threshold - fh) / fh }
    else w

module _ (raster_width : RasterHeight → ℕ) where
  abbrev pub font_w : RasterHeight → ℕ
  font_w size = raster_width size

  abbrev pub x_of : KWriter → ℕ
  x_of w = w.column * font_w w.font_size

  abbrev pub y_of : KWriter → ℕ
  y_of w = w.row * font_h w.font_size

  -- The end of a line: it goes to the history, and the cursor down.
  unfoldable pub end_line : KWriter → KWriter
  end_line w =
      check_scroll
        (record w {
          history = w.history ++ w.current_line ∷ [];
          current_line = [];
          glyph_cells = [];
          column = 0;
          row = w.row + 1;
        })
        (font_h w.font_size)

  -- The cell for the next glyph, behind a wrap at the right edge.
  unfoldable pub next_cell : KWriter → Cell
  next_cell w =
      if ltb w.width ((w.column + 1) * font_w w.font_size)
      then record { column = 0; row = w.row + 1 }
      else record { column = w.column; row = w.row }

  unfoldable pub put_char : KWriter → ℕ → KWriter
  put_char w ch =
      let cell = next_cell w in
      record w {
        drawn = text (ch ∷ []) cell.column cell.row w.font_size ∷ w.drawn;
        current_line = w.current_line ++ ch ∷ [];
        glyph_cells = w.glyph_cells ++ cell ∷ [];
        column = cell.column + 1;
        row = cell.row;
      }

  unfoldable pub write_char : KWriter → ℕ → KWriter
  write_char w ch = if ch == newline then end_line w else put_char w ch

  -- `write_str`, which `kprint` calls for every piece of what it prints.
  unfoldable pub write_str : KWriter → List ℕ → KWriter
  write_str w [] = w
  write_str w (ch ∷ s) = write_str (write_char w ch) s

  unfoldable pub draw_cursor : KWriter → KWriter
  draw_cursor w =
      let fh = font_h w.font_size in
      let fw = font_w w.font_size in
      let w' =
        if ltb w.width (x_of w + fw)
        then check_scroll (record w { column = 0; row = w.row + 1 }) fh
        else w in
      draw w' (rectangle (x_of w') (y_of w') fw (fh - 4) white)

  unfoldable pub erase_cursor : KWriter → KWriter
  erase_cursor w =
      draw w (rectangle (x_of w) (y_of w) (font_w w.font_size) (font_h w.font_size - 4) black)
