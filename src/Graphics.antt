-- ===== src/Graphics.antt =====
-- src/graphics: the framebuffer and drawing on it, and the software cursor of src/mouse/mod.rs.
-- A framebuffer is the bytes of its mapping and the geometry that was reported for it; the pointer
-- to the mapping is not null, and its bytes are reached through it alone.
pub mod Bytes
pub mod Pixels
pub mod Rectangle
pub mod Cursor
pub mod Tests
use agnost_os.Base.{
  ℕ, zero, suc, ◌+◌, ◌-◌, ◌*◌, ◌≤◌, ◌<◌, Bool, true, false, not, ◌&&◌, ◌||◌, Option, none, some,
  List, [], ◌∷◌, ◌++◌, ltb, leb, ◌==◌, if◌then◌else◌, Result, ok, err, length, get_or, set, checked,
}

pub record Color : Type 0 where
  pub r : ℕ
  pub g : ℕ
  pub b : ℕ

abbrev pub black : Color
black = record { r = 0; g = 0; b = 0 }

abbrev pub white : Color
white = record { r = 255; g = 255; b = 255 }

-- The pixel formats of the `uefi` crate.
pub data PixelFormat : Type 0 where
  rgb bgr bitmask blt_only : PixelFormat

pub record Framebuffer : Type 0 where
  pub bytes : List ℕ
  pub width : ℕ
  pub height : ℕ
  pub stride : ℕ
  pub pixel_format : PixelFormat

pub data FramebufferError : Type 0 where
  unsupported_pixel_format : PixelFormat → FramebufferError
  invalid_geometry : FramebufferError
  framebuffer_too_small : ℕ → ℕ → FramebufferError

abbrev pub is_rgb_or_bgr : PixelFormat → Bool
is_rgb_or_bgr PixelFormat.rgb = true
is_rgb_or_bgr PixelFormat.bgr = true
is_rgb_or_bgr _ = false

unfoldable pub required_byte_len : ℕ → ℕ → ℕ → Option ℕ
required_byte_len width height stride =
    if ltb stride width
    then none
    else elim (checked (stride * height)) [ none ↦ none | some pixels ↦ checked (pixels * 4) ]

-- `from_raw_parts`, on the bytes of the mapping.
unfoldable pub from_raw_parts :
    List ℕ → ℕ → ℕ → ℕ → PixelFormat → Result FramebufferError Framebuffer
from_raw_parts bytes width height stride pixel_format =
    if not (is_rgb_or_bgr pixel_format)
    then err (unsupported_pixel_format pixel_format)
    else elim (required_byte_len width height stride) [
      | none ↦ err invalid_geometry
      | some required ↦
          if ltb (length bytes) required
          then err (framebuffer_too_small required (length bytes))
          else ok (record {
            bytes = bytes;
            width = width;
            height = height;
            stride = stride;
            pixel_format = pixel_format;
          })
    ]

-- `Framebuffer::new`, on the mode that the firmware reports; sizes and strides of 0 are refused.
unfoldable pub new : List ℕ → ℕ → ℕ → ℕ → PixelFormat → Result FramebufferError Framebuffer
new bytes width height stride pixel_format =
    if (width == 0 || height == 0) || stride == 0
    then err invalid_geometry
    else from_raw_parts bytes width height stride pixel_format

unfoldable pub is_drawable : Framebuffer → Bool
is_drawable fb =
    is_rgb_or_bgr fb.pixel_format && elim (required_byte_len fb.width fb.height fb.stride) [
      | none ↦ false
      | some required ↦ leb required (length fb.bytes)
    ]

-- The color of the three bytes of a pixel.
abbrev pub color_of : PixelFormat → ℕ → ℕ → ℕ → Color
color_of PixelFormat.rgb x y z = record { r = x; g = y; b = z }
color_of PixelFormat.bgr x y z = record { r = z; g = y; b = x }
color_of _ x y z = black

unfoldable pub read_pixel : Framebuffer → ℕ → ℕ → Color
read_pixel fb x y =
    if not (is_drawable fb) || (leb fb.width x || leb fb.height y)
    then black
    else elim (checked (y * fb.stride)) [
      | none ↦ black
      | some row ↦ elim (checked (row + x)) [
        | none ↦ black
        | some pixel ↦ elim (checked (pixel * 4)) [
          | none ↦ black
          | some offset ↦ elim (checked (offset + 4)) [
            | none ↦ black
            | some end ↦
                if ltb (length fb.bytes) end
                then black
                else color_of fb.pixel_format (get_or fb.bytes offset 0)
                    (get_or fb.bytes (offset + 1) 0) (get_or fb.bytes (offset + 2) 0)
          ]
        ]
      ]
    ]

-- The three bytes of a color in a drawable format.
abbrev pub bytes_of : PixelFormat → Color → Option (ℕ × ℕ × ℕ)
bytes_of PixelFormat.rgb c = some (c.r, c.g, c.b)
bytes_of PixelFormat.bgr c = some (c.b, c.g, c.r)
bytes_of _ c = none

abbrev pub set_three : List ℕ → ℕ → ℕ → ℕ → ℕ → List ℕ
set_three bytes offset x y z = set (set (set bytes offset x) (offset + 1) y) (offset + 2) z

unfoldable pub write_pixel : Framebuffer → ℕ → Color → Bool × Framebuffer
write_pixel fb pixel_index color = elim (bytes_of fb.pixel_format color) [
  | none ↦ (false, fb)
  | some (x, y, z) ↦ elim (checked (pixel_index * 4)) [
    | none ↦ (false, fb)
    | some offset ↦ elim (checked (offset + 4)) [
      | none ↦ (false, fb)
      | some end ↦
          if ltb (length fb.bytes) end
          then (false, fb)
          else (true, record fb { bytes = set_three fb.bytes offset x y z })
    ]
  ]
]

-- A loop over `count` columns of a row from `col` on, with the colors that it writes.
unfoldable pub write_columns : ℕ → Framebuffer → (ℕ → ℕ → Color) → ℕ → ℕ → Framebuffer
write_columns zero fb colors row col = fb
write_columns (suc count) fb colors row col =
    write_columns count ((write_pixel fb (row * fb.stride + col) (colors row col)).1) colors row
      (col + 1)

-- A loop over `count` rows from `row` on, each `width` columns from `col` on.
unfoldable pub write_rows : ℕ → Framebuffer → (ℕ → ℕ → Color) → ℕ → ℕ → ℕ → Framebuffer
write_rows zero fb colors row col width = fb
write_rows (suc count) fb colors row col width =
    write_rows count (write_columns width fb colors row col) colors (row + 1) col width

unfoldable pub clear_background : Framebuffer → Color → Framebuffer
clear_background fb color =
    if is_drawable fb then write_rows fb.height fb (λ _ _. color) 0 0 fb.width else fb

unfoldable pub draw_rec : Framebuffer → ℕ → ℕ → ℕ → ℕ → Color → Framebuffer
draw_rec fb x y width height color =
    if not (is_drawable fb) then fb else elim (checked (x + width)) [
      | none ↦ fb
      | some x2 ↦ elim (checked (y + height)) [
        | none ↦ fb
        | some y2 ↦
            if ltb fb.width x2 || ltb fb.height y2
            then fb
            else write_rows height fb (λ _ _. color) y x width
      ]
    ]

abbrev pub cursor_size : ℕ
cursor_size = 5

-- `MouseCursor`: where the cursor is drawn, if it is, and the 25 colors beneath it.
pub record MouseCursor : Type 0 where
  pub position : Option (ℕ × ℕ)
  pub saved_under : List Color

-- The loop of `draw_mouse_cursor` over `count` columns of a row from `col` on.
unfoldable pub save_columns : ℕ → Framebuffer → List Color → ℕ → ℕ → ℕ → ℕ → List Color
save_columns zero fb saved x y row col = saved
save_columns (suc count) fb saved x y row col =
    save_columns count fb (set saved (row * cursor_size + col) (read_pixel fb (x + col) (y + row)))
      x y row (col + 1)

-- The loop over `count` rows from `row` on.
unfoldable pub save_rows : ℕ → Framebuffer → List Color → ℕ → ℕ → ℕ → List Color
save_rows zero fb saved x y row = saved
save_rows (suc count) fb saved x y row =
    save_rows count fb (save_columns cursor_size fb saved x y row 0) x y (row + 1)

unfoldable pub draw_mouse_cursor : Framebuffer → MouseCursor → ℕ → ℕ → Framebuffer × MouseCursor
draw_mouse_cursor fb cursor x y = elim (checked (x + cursor_size)) [
  | none ↦ (fb, cursor)
  | some right ↦ elim (checked (y + cursor_size)) [
    | none ↦ (fb, cursor)
    | some bottom ↦
        if not (is_drawable fb) || (ltb fb.width right || ltb fb.height bottom)
        then (fb, cursor)
        else (
          draw_rec fb x y cursor_size cursor_size white,
          record {
            position = some (x, y);
            saved_under = save_rows cursor_size fb cursor.saved_under x y 0;
          },
        )
  ]
]

-- The loops run over the rows and columns of the cursor; a saved color has its row and column there.
unfoldable pub erase_mouse_cursor : Framebuffer → MouseCursor → Framebuffer × MouseCursor
erase_mouse_cursor fb cursor = elim cursor.position [
  | none ↦ (fb, cursor)
  | some (x, y) ↦ (
    write_rows cursor_size fb
        (λ row col. get_or cursor.saved_under ((row - y) * cursor_size + (col - x)) black) y x
        cursor_size,
    record { position = none; saved_under = cursor.saved_under },
  )
]
