-- ===== src/Graphics/Rectangle.antt =====
-- src/graphics/drawing.rs: filled rectangles and the background, pixel by pixel.
use agnost_os.Base.{
  ℕ, zero, suc, ◌+◌, ◌*◌, ◌≤◌, ◌<◌, ◌≡◌, refl, sym, ap, ◌∙◌, Bool, true, ◌&&◌, arith, List, leb,
  ◌==◌, if◌then◌else◌, Bool-cases, inl, inr, length, u64_max,
}
use agnost_os.Memory.Pieces.{between}
use agnost_os.Graphics.{
  Framebuffer, Color, read_pixel, write_pixel, write_columns, write_rows, clear_background,
  draw_rec,
}
use agnost_os.Graphics.Bytes.{index-lt, index-eq}
use agnost_os.Graphics.Pixels.{IsDrawable, pixel, read_pixel_lem, write_pixel_lem, is_drawable-true}

-- The framebuffer with other bytes.
abbrev pub with_bytes : Framebuffer → List ℕ → Framebuffer
with_bytes fb bs = record fb { bytes = bs }

pub with_bytes-IsDrawable :
    (fb : Framebuffer) (bs : List ℕ)
    → IsDrawable fb
    → length bs ≡ length fb.bytes
    → IsDrawable (with_bytes fb bs)
with_bytes-IsDrawable fb bs v e =
    let m = v.mapped in
    record { format = v.format; wide = v.wide; bounded = v.bounded; mapped = omega (arith, m, e) }

-- Whether a pixel lies in a rectangle.
abbrev pub in_rect : ℕ → ℕ → ℕ → ℕ → ℕ → ℕ → Bool
in_rect x y width height a b = between y (y + height) b && between x (x + width) a

-- What a drawing loop over a rectangle leaves of the framebuffer: the same mapping and geometry, the
-- colors of the loop inside the rectangle, and the others as they were.
pub record IsDrawn (fb : Framebuffer) (colors : ℕ → ℕ → Color) (x y width height : ℕ)
    (result : Framebuffer) : Type 0 where
  pub bytes : List ℕ
  pub result-eq : result ≡ with_bytes fb bytes
  pub size : length bytes ≡ length fb.bytes
  pub drawn :
      (a b : ℕ)
      → a < fb.stride
      → pixel (with_bytes fb bytes) (b * fb.stride + a)
        ≡ (if in_rect x y width height a b then colors b a else pixel fb (b * fb.stride + a))

columns-step :
    (x y count a b : ℕ) (new old : Color)
    → (if in_rect (x + 1) y count 1 a b then new else (if b == y && a == x then new else old))
      ≡ (if in_rect x y (suc count) 1 a b then new else old)
columns-step x y count a b new old = ground arith

rows-step :
    (x y width count a b : ℕ) (new old : Color)
    → (if in_rect x (y + 1) width count a b
        then new
        else (if in_rect x y width 1 a b then new else old))
      ≡ (if in_rect x y width (suc count) a b then new else old)
rows-step x y width count a b new old = ground arith

same-color :
    (colors : ℕ → ℕ → Color) (x y a b : ℕ) (old : Color)
    → (if b == y && a == x then colors y x else old)
      ≡ (if b == y && a == x then colors b a else old)
same-color colors x y a b old = elim (Bool-cases (b == y && a == x)) [
  | inr other ↦ rw other refl
  | inl same ↦ let e : b ≡ y = ground arith in let f : a ≡ x = ground arith in rw (same, e, f) refl
]

write_columns_lem :
    (count : ℕ) (fb : Framebuffer) (colors : ℕ → ℕ → Color) (y x : ℕ)
    → IsDrawable fb
    → x + count ≤ fb.stride
    → y < fb.height
    → IsDrawn fb colors x y count 1 (write_columns count fb colors y x)
unfolding write_columns
write_columns_lem zero fb colors y x v w h = record {
  bytes = fb.bytes;
  result-eq = refl;
  size = refl;
  drawn = λ a b k. ground arith;
}
write_columns_lem (suc count) fb colors y x v w h =
    let (bs, e, l, p) =
      write_pixel_lem fb (y * fb.stride + x) (colors y x) v
        (index-lt x y fb.height fb.stride (omega (arith, w)) h) in
    let fb1 = with_bytes fb bs in
    let e1 : (write_pixel fb (y * fb.stride + x) (colors y x)).1 ≡ fb1 = ap (λ q. q.1) e in
    let rest =
      write_columns_lem count fb1 colors y (x + 1) (with_bytes-IsDrawable fb bs v l)
        (omega (arith, w)) h in
    record {
      bytes = rest.bytes;
      result-eq = ap (λ f. write_columns count f colors y (x + 1)) e1 ∙ rest.result-eq;
      size = rest.size ∙ l;
      drawn = λ a b k.
          let q = rest.drawn a b k in
          let r = p (b * fb.stride + a) in
          let i = index-eq x y a b fb.stride (omega (arith, w)) k in
          let old = pixel fb (b * fb.stride + a) in
          let r' : pixel fb1 (b * fb.stride + a) ≡ (if b == y && a == x then colors b a else old) =
            r ∙ (ap (λ t. if t then colors y x else old) i ∙ same-color colors x y a b old) in
          q
          ∙ (ap (λ z. if in_rect (x + 1) y count 1 a b then colors b a else z) r'
              ∙ columns-step x y count a b (colors b a) old);
    }

pub write_rows_lem :
    (count : ℕ) (fb : Framebuffer) (colors : ℕ → ℕ → Color) (y x width : ℕ)
    → IsDrawable fb
    → x + width ≤ fb.stride
    → y + count ≤ fb.height
    → IsDrawn fb colors x y width count (write_rows count fb colors y x width)
unfolding write_rows
write_rows_lem zero fb colors y x width v w h = record {
  bytes = fb.bytes;
  result-eq = refl;
  size = refl;
  drawn = λ a b k. ground arith;
}
write_rows_lem (suc count) fb colors y x width v w h =
    let first = write_columns_lem width fb colors y x v w (omega (arith, h)) in
    let fb1 = with_bytes fb first.bytes in
    let rest =
      write_rows_lem count fb1 colors (y + 1) x width
        (with_bytes-IsDrawable fb first.bytes v first.size) w (omega (arith, h)) in
    record {
      bytes = rest.bytes;
      result-eq =
          ap (λ f. write_rows count f colors (y + 1) x width) first.result-eq ∙ rest.result-eq;
      size = rest.size ∙ first.size;
      drawn = λ a b k.
          let old = pixel fb (b * fb.stride + a) in
          rest.drawn a b k
          ∙ (ap (λ z. if in_rect x (y + 1) width count a b then colors b a else z)
                (first.drawn a b k)
              ∙ rows-step x y width count a b (colors b a) old);
    }

-- Seen through `read_pixel`.
pub IsDrawn-read_pixel :
    (fb result : Framebuffer) (colors : ℕ → ℕ → Color) (x y width height a b : ℕ)
    → IsDrawable fb
    → IsDrawn fb colors x y width height result
    → a < fb.width
    → b < fb.height
    → read_pixel result a b
      ≡ (if in_rect x y width height a b then colors b a else read_pixel fb a b)
IsDrawn-read_pixel fb result colors x y width height a b v k p q =
    let w = v.wide in
    let e1 =
      read_pixel_lem (with_bytes fb k.bytes) a b (with_bytes-IsDrawable fb k.bytes v k.size) p q in
    let e2 = read_pixel_lem fb a b v p q in
    let e3 = k.drawn a b (omega (arith, p, w)) in
    ap (λ f. read_pixel f a b) k.result-eq
    ∙ (e1 ∙ (e3 ∙ ap (λ z. if in_rect x y width height a b then colors b a else z) (sym e2)))

pub draw_rec-cases :
    (fb : Framebuffer) (x y width height : ℕ) (color : Color)
    → IsDrawable fb
    → fb.width ≤ u64_max
    → fb.height ≤ u64_max
    → draw_rec fb x y width height color ≡ (
        if leb (x + width) fb.width && leb (y + height) fb.height
        then write_rows height fb (λ _ _. color) y x width
        else fb)
unfolding draw_rec
draw_rec-cases fb x y width height color v w h = let d = is_drawable-true fb v in ground arith

-- A rectangle that fits the visible part is drawn on exactly its own pixels, and one that does not
-- fit is not drawn at all: every visible pixel then reads as the color, or as before.
pub draw_rec_lem :
    (fb : Framebuffer) (x y width height : ℕ) (color : Color) (a b : ℕ)
    → IsDrawable fb
    → fb.width ≤ u64_max
    → fb.height ≤ u64_max
    → a < fb.width
    → b < fb.height
    → read_pixel (draw_rec fb x y width height color) a b ≡ (
        if (leb (x + width) fb.width && leb (y + height) fb.height) && in_rect x y width height a b
        then color
        else read_pixel fb a b)
draw_rec_lem fb x y width height color a b v w h p q =
    elim (Bool-cases (leb (x + width) fb.width && leb (y + height) fb.height)) [
      | inr out ↦ rw (draw_rec-cases fb x y width height color v w h, out) refl
      | inl fits ↦
          let m = v.wide in
          let k =
            write_rows_lem height fb (λ _ _. color) y x width v (ground arith) (ground arith) in
          rw (draw_rec-cases fb x y width height color v w h, fits)
            (IsDrawn-read_pixel fb _ (λ _ _. color) x y width height a b v k p q)
    ]

-- After `clear_background` every visible pixel has the color.
pub clear_background_lem :
    (fb : Framebuffer) (color : Color) (a b : ℕ)
    → IsDrawable fb
    → a < fb.width
    → b < fb.height
    → read_pixel (clear_background fb color) a b ≡ color
unfolding clear_background
clear_background_lem fb color a b v p q =
    let m = v.wide in
    let k =
      write_rows_lem fb.height fb (λ _ _. color) 0 0 fb.width v (omega (arith, m)) (omega arith) in
    let i : in_rect 0 0 fb.width fb.height a b ≡ true = ground arith in
    rw (clear_background, is_drawable-true fb v)
      (IsDrawn-read_pixel fb _ (λ _ _. color) 0 0 fb.width fb.height a b v k p q ∙ rw i refl)
