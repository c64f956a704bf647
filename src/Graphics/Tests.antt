-- ===== src/Graphics/Tests.antt =====
-- A small framebuffer, as in the test of src/mouse/mod.rs, and the theorems at it.
use agnost_os.Base.{
  ℕ, ◌+◌, ◌≡◌, refl, ◌&&◌, none, List, [], arith, leb, if◌then◌else◌, ok, err, length, replicate,
  length-replicate,
}
use agnost_os.Graphics.{
  Framebuffer, FramebufferError, PixelFormat, MouseCursor, black, white, from_raw_parts,
  required_byte_len, read_pixel, draw_rec, draw_mouse_cursor, erase_mouse_cursor,
}
use agnost_os.Graphics.Pixels.{IsDrawable}
use agnost_os.Graphics.Rectangle.{in_rect, draw_rec_lem}
use agnost_os.Graphics.Cursor.{erase-draw_mouse_cursor}

abbrev blank : List ℕ
blank = replicate 196 0

abbrev screen : Framebuffer
screen = record { bytes = blank; width = 6; height = 7; stride = 7; pixel_format = PixelFormat.bgr }

run-from_raw_parts : from_raw_parts blank 6 7 7 PixelFormat.bgr ≡ ok screen
unfolding from_raw_parts required_byte_len
run-from_raw_parts = refl

run-too_small :
    from_raw_parts [] 1 1 1 PixelFormat.rgb ≡ err (FramebufferError.framebuffer_too_small 4 0)
unfolding from_raw_parts required_byte_len
run-too_small = refl

screen-IsDrawable : IsDrawable screen
screen-IsDrawable =
    let n : length blank ≡ 196 = length-replicate {A = ℕ} 196 0 in
    record { format = refl; wide = omega arith; bounded = omega arith; mapped = omega (arith, n) }

draw_rec_lem_example : read_pixel (draw_rec screen 1 2 3 4 white) 3 5 ≡ (
    if (leb (1 + 3) 6 && leb (2 + 4) 7) && in_rect 1 2 3 4 3 5
    then white
    else read_pixel screen 3 5)
draw_rec_lem_example =
    draw_rec_lem screen 1 2 3 4 white 3 5 screen-IsDrawable (omega arith) (omega arith)
      (omega arith) (omega arith)

abbrev no_cursor : MouseCursor
no_cursor = record { position = none; saved_under = replicate 25 black }

erase-draw_mouse_cursor_example :
    let (drawn, cursor) = draw_mouse_cursor screen no_cursor 1 1 in
    let (erased, cursor') = erase_mouse_cursor drawn cursor in
    (read_pixel erased 2 2 ≡ read_pixel screen 2 2) × (cursor'.position ≡ none)
erase-draw_mouse_cursor_example =
    erase-draw_mouse_cursor screen (replicate 25 black) 1 1 2 2 screen-IsDrawable (omega arith)
      (omega arith) refl (omega arith) (omega arith)
