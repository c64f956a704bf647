-- ===== src/Graphics/Cursor.antt =====
-- src/mouse/mod.rs: the software cursor gives the pixels back that it covered.
use agnost_os.Base.{
  ℕ, zero, suc, ◌+◌, ◌-◌, ◌*◌, ◌≤◌, ◌<◌, ◌≡◌, refl, ap, ◌∙◌, true, ◌&&◌, none, some, arith, List,
  leb, ◌==◌, if◌then◌else◌, Bool-cases, inl, inr, length, length-set, get_or, set, get_or-set,
  u64_max,
}
use mathlib.Core.Path.{subst}
use agnost_os.Memory.Pieces.{between}
use agnost_os.Graphics.{
  Framebuffer, Color, MouseCursor, black, white, cursor_size, read_pixel, draw_rec, save_columns,
  save_rows, draw_mouse_cursor, erase_mouse_cursor,
}
use agnost_os.Graphics.Bytes.{index-eq}
use agnost_os.Graphics.Pixels.{IsDrawable, is_drawable-true}
use agnost_os.Graphics.Rectangle.{
  IsDrawn, in_rect, with_bytes, with_bytes-IsDrawable, IsDrawn-read_pixel, write_rows_lem,
  draw_rec-cases,
}

columns-join :
    (row col count i j : ℕ) (new old : Color)
    → (if i == row && between (col + 1) (col + 1 + count) j
        then new
        else (if i == row && j == col then new else old))
      ≡ (if i == row && between col (col + suc count) j then new else old)
columns-join row col count i j new old = ground arith

rows-join :
    (row count i j : ℕ) (new old : Color)
    → j < 5
    → (if between (row + 1) (row + 1 + count) i
        then new
        else (if i == row && between 0 (0 + cursor_size) j then new else old))
      ≡ (if between row (row + suc count) i then new else old)
rows-join row count i j new old q = ground arith

module _ (fb : Framebuffer) (x y : ℕ) where
  -- The color beneath a pixel of the cursor.
  abbrev under : ℕ → ℕ → Color
  under row col = read_pixel fb (x + col) (y + row)

  same-under :
      (row col i j : ℕ) (old : Color)
      → (if i == row && j == col then under row col else old)
        ≡ (if i == row && j == col then under i j else old)
  same-under row col i j old = elim (Bool-cases (i == row && j == col)) [
    | inr other ↦ rw other refl
    | inl same ↦
        let e : i ≡ row = ground arith in let f : j ≡ col = ground arith in rw (same, e, f) refl
  ]

  length-save_columns :
      (count : ℕ) (saved : List Color) (row col : ℕ)
      → length (save_columns count fb saved x y row col) ≡ length saved
  unfolding save_columns
  length-save_columns zero saved row col = refl
  length-save_columns (suc count) saved row col =
      length-save_columns count _ row (col + 1)
      ∙ length-set saved (row * cursor_size + col) (under row col)

  save_columns_lem :
      (count : ℕ) (saved : List Color) (row col i j : ℕ)
      → length saved ≡ 25
      → row < 5
      → col + count ≤ 5
      → j < 5
      → get_or (save_columns count fb saved x y row col) (i * cursor_size + j) black ≡ (
          if i == row && between col (col + count) j
          then under i j
          else get_or saved (i * cursor_size + j) black)
  unfolding save_columns
  save_columns_lem zero saved row col i j n r k q = ground arith
  save_columns_lem (suc count) saved row col i j n r k q =
      let at = row * cursor_size + col in
      let saved1 = set saved at (under row col) in
      let l = length-set saved at (under row col) in
      let e = save_columns_lem count saved1 row (col + 1) i j (l ∙ n) r (omega (arith, k)) q in
      let s =
        get_or-set saved at (i * cursor_size + j) (under row col) black (omega (arith, n, k)) in
      let t = index-eq col row j i 5 (omega (arith, k)) q in
      let old = get_or saved (i * cursor_size + j) black in
      let s' : get_or saved1 (i * cursor_size + j) black
          ≡ (if i == row && j == col then under i j else old) =
        s ∙ (ap (λ b. if b then under row col else old) t ∙ same-under row col i j old) in
      e
      ∙ (ap (λ z. if i == row && between (col + 1) (col + 1 + count) j then under i j else z) s'
          ∙ columns-join row col count i j (under i j) old)

  length-save_rows :
      (count : ℕ) (saved : List Color) (row : ℕ)
      → length (save_rows count fb saved x y row) ≡ length saved
  unfolding save_rows
  length-save_rows zero saved row = refl
  length-save_rows (suc count) saved row =
      length-save_rows count _ (row + 1) ∙ length-save_columns cursor_size saved row 0

  save_rows_lem :
      (count : ℕ) (saved : List Color) (row i j : ℕ)
      → length saved ≡ 25
      → row + count ≤ 5
      → j < 5
      → get_or (save_rows count fb saved x y row) (i * cursor_size + j) black ≡ (
          if between row (row + count) i
          then under i j
          else get_or saved (i * cursor_size + j) black)
  unfolding save_rows
  save_rows_lem zero saved row i j n k q = ground arith
  save_rows_lem (suc count) saved row i j n k q =
      let saved1 = save_columns cursor_size fb saved x y row 0 in
      let l = length-save_columns cursor_size saved row 0 in
      let e = save_rows_lem count saved1 (row + 1) i j (l ∙ n) (omega (arith, k)) q in
      let s = save_columns_lem cursor_size saved row 0 i j n (omega (arith, k)) (omega arith) q in
      let old = get_or saved (i * cursor_size + j) black in
      e
      ∙ (ap (λ z. if between (row + 1) (row + 1 + count) i then under i j else z) s
          ∙ rows-join row count i j (under i j) old q)

draw_mouse_cursor-cases :
    (fb : Framebuffer) (cursor : MouseCursor) (x y : ℕ)
    → IsDrawable fb
    → fb.width ≤ u64_max
    → fb.height ≤ u64_max
    → draw_mouse_cursor fb cursor x y ≡ (
        if leb (x + cursor_size) fb.width && leb (y + cursor_size) fb.height
        then (
          draw_rec fb x y cursor_size cursor_size white,
          record {
            position = some (x, y);
            saved_under = save_rows cursor_size fb cursor.saved_under x y 0;
          },
        )
        else (fb, cursor))
unfolding draw_mouse_cursor
draw_mouse_cursor-cases fb cursor x y v w h = let d = is_drawable-true fb v in ground arith

-- A pixel of the cursor has its own color again, and any other was not drawn on.
restored :
    (fb : Framebuffer) (saved : List Color) (x y a b : ℕ) {now : Color}
    → length saved ≡ 25
    → now ≡ (if in_rect x y cursor_size cursor_size a b then white else read_pixel fb a b)
    → (if in_rect x y cursor_size cursor_size a b
        then get_or (save_rows cursor_size fb saved x y 0) ((b - y) * cursor_size + (a - x)) black
        else now)
      ≡ read_pixel fb a b
restored fb saved x y a b n r = elim (Bool-cases (in_rect x y cursor_size cursor_size a b)) [
  | inr outside ↦ rw outside (r ∙ rw outside refl)
  | inl inside ↦
      let s =
        save_rows_lem fb x y cursor_size saved 0 (b - y) (a - x) n (omega arith) (ground arith) in
      let i : between 0 (0 + cursor_size) (b - y) ≡ true = ground arith in
      let e : x + (a - x) ≡ a = ground arith in
      let f : y + (b - y) ≡ b = ground arith in rw inside (s ∙ rw (i, e, f) refl)
]

-- The cursor gives back what it covered: drawn anywhere, on the screen or not, while none was drawn,
-- and erased again, it leaves every visible pixel as it was, and no cursor drawn.
pub erase-draw_mouse_cursor :
    (fb : Framebuffer) (saved : List Color) (x y a b : ℕ)
    → IsDrawable fb
    → fb.width ≤ u64_max
    → fb.height ≤ u64_max
    → length saved ≡ 25
    → a < fb.width
    → b < fb.height
    → (let (drawn, cursor) =
          draw_mouse_cursor fb (record { position = none; saved_under = saved }) x y in
        let (erased, cursor') = erase_mouse_cursor drawn cursor in
        (read_pixel erased a b ≡ read_pixel fb a b) × (cursor'.position ≡ none))
unfolding erase_mouse_cursor
erase-draw_mouse_cursor fb saved x y a b v w h n p q =
    let c0 : MouseCursor = record { position = none; saved_under = saved } in
    elim (Bool-cases (leb (x + cursor_size) fb.width && leb (y + cursor_size) fb.height)) [
      | inr out ↦ rw (draw_mouse_cursor-cases fb c0 x y v w h, out) (refl, refl)
      | inl fits ↦
          let m = v.wide in
          let k =
            write_rows_lem cursor_size fb (λ _ _. white) y x cursor_size v (ground arith)
              (ground arith) in
          let fb1 = with_bytes fb k.bytes in
          let d : draw_rec fb x y cursor_size cursor_size white ≡ fb1 =
            rw (draw_rec-cases fb x y cursor_size cursor_size white v w h, fits) k.result-eq in
          let under_all = save_rows cursor_size fb saved x y 0 in
          let colors =
            λ (row col : ℕ). get_or under_all ((row - y) * cursor_size + (col - x)) black in
          let v1 = with_bytes-IsDrawable fb k.bytes v k.size in
          let e =
            write_rows_lem cursor_size fb1 colors y x cursor_size v1 (ground arith)
              (ground arith) in
          let r1 = IsDrawn-read_pixel fb1 _ colors x y cursor_size cursor_size a b v1 e p q in
          let r0 =
            IsDrawn-read_pixel fb fb1 (λ _ _. white) x y cursor_size cursor_size a b v
              (subst (IsDrawn fb (λ _ _. white) x y cursor_size cursor_size) k.result-eq k) p q in
          rw (draw_mouse_cursor-cases fb c0 x y v w h, fits, d)
            (r1 ∙ restored fb saved x y a b n r0, refl)
    ]
