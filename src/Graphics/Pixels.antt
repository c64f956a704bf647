-- ===== src/Graphics/Pixels.antt =====
-- src/graphics/framebuffer.rs: reading and writing one pixel.
use agnost_os.Base.{
  ℕ, ◌+◌, ◌*◌, ◌≤◌, ◌<◌, ◌≡◌, refl, true, false, some, arith, List, ltb, ◌==◌, if◌then◌else◌,
  Bool-cases, inl, inr, ok, length, get_or, u64_max, checked,
}
use mathlib.Core.Path.{subst}
use agnost_os.Graphics.{
  Framebuffer, Color, PixelFormat, color_of, bytes_of, is_rgb_or_bgr, required_byte_len,
  is_drawable, read_pixel, write_pixel, set_three, from_raw_parts,
}
use agnost_os.Graphics.PixelFormat.{rgb, bgr, bitmask, blt_only}
use agnost_os.Graphics.Bytes.{index-lt, length-set_three, get_or-set_three}

-- What `is_drawable` checks: a format with three bytes of color, rows at least as long as the visible
-- part, and a mapping that holds all rows.
pub record IsDrawable (fb : Framebuffer) : Type 0 where
  pub format : is_rgb_or_bgr fb.pixel_format ≡ true
  pub wide : fb.width ≤ fb.stride
  pub bounded : fb.stride * fb.height * 4 ≤ u64_max
  pub mapped : fb.stride * fb.height * 4 ≤ length fb.bytes

pub is_drawable-true : (fb : Framebuffer) → IsDrawable fb → is_drawable fb ≡ true
unfolding is_drawable required_byte_len
is_drawable-true fb v =
    let n = v.bounded in let m = v.mapped in let w = v.wide in let f = v.format in ground arith

pub from_raw_parts-IsDrawable :
    (bytes : List ℕ) (width height stride : ℕ) (format : PixelFormat) {fb : Framebuffer}
    → from_raw_parts bytes width height stride format ≡ ok fb
    → IsDrawable fb
unfolding from_raw_parts required_byte_len
from_raw_parts-IsDrawable bytes width height stride format {fb} h =
    let e : (is_rgb_or_bgr format ≡ true)
        × (width ≤ stride)
        × (stride * height * 4 ≤ u64_max)
        × (stride * height * 4 ≤ length bytes)
        × (record {
          bytes = bytes;
          width = width;
          height = height;
          stride = stride;
          pixel_format = format;
        }
            ≡ fb) =
      ground arith in
    let (a, b, c, d, q) = e in
    subst IsDrawable q (record { format = a; wide = b; bounded = c; mapped = d })

-- The color at an index.
abbrev pub pixel : Framebuffer → ℕ → Color
pixel fb i =
    color_of fb.pixel_format (get_or fb.bytes (i * 4) 0) (get_or fb.bytes (i * 4 + 1) 0)
      (get_or fb.bytes (i * 4 + 2) 0)

pub read_pixel_lem :
    (fb : Framebuffer) (x y : ℕ)
    → IsDrawable fb
    → x < fb.width
    → y < fb.height
    → read_pixel fb x y ≡ pixel fb (y * fb.stride + x)
unfolding read_pixel
read_pixel_lem fb x y v a b =
    let w = v.wide in
    let i = index-lt x y fb.height fb.stride (omega (arith, w)) b in
    let n = v.bounded in let m = v.mapped in let d = is_drawable-true fb v in ground arith

-- A drawable format loses nothing of a color.
bytes_of-color_of :
    (f : PixelFormat) (c : Color)
    → is_rgb_or_bgr f ≡ true
    → (x : ℕ) × (y : ℕ) × (z : ℕ) × (bytes_of f c ≡ some (x, y, z)) × (color_of f x y z ≡ c)
bytes_of-color_of rgb c h = (c.r, c.g, c.b, refl, refl)
bytes_of-color_of bgr c h = (c.b, c.g, c.r, refl, refl)
bytes_of-color_of bitmask c h = cc
bytes_of-color_of blt_only c h = cc

color-set_three :
    (f : PixelFormat) (bs : List ℕ) (i j x y z : ℕ) (c : Color)
    → i * 4 + 3 ≤ length bs
    → color_of f x y z ≡ c
    → (let bs' = set_three bs (i * 4) x y z in
        color_of f (get_or bs' (j * 4) 0) (get_or bs' (j * 4 + 1) 0) (get_or bs' (j * 4 + 2) 0) ≡ (
          if i == j
          then c
          else color_of f
              (get_or bs (j * 4) 0)
              (get_or bs (j * 4 + 1) 0)
              (get_or bs (j * 4 + 2) 0)))
color-set_three f bs i j x y z c h e =
    let a0 = get_or-set_three bs (i * 4) (j * 4) x y z h in
    let a1 = get_or-set_three bs (i * 4) (j * 4 + 1) x y z h in
    let a2 = get_or-set_three bs (i * 4) (j * 4 + 2) x y z h in
    elim (Bool-cases (i == j)) [
      | inl same ↦
          let b0 : get_or (set_three bs (i * 4) x y z) (j * 4) 0 ≡ x = ground (arith, a0) in
          let b1 : get_or (set_three bs (i * 4) x y z) (j * 4 + 1) 0 ≡ y = ground (arith, a1) in
          let b2 : get_or (set_three bs (i * 4) x y z) (j * 4 + 2) 0 ≡ z = ground (arith, a2) in
          rw (b0, b1, b2, same) e
      | inr other ↦
          let b0 : get_or (set_three bs (i * 4) x y z) (j * 4) 0 ≡ get_or bs (j * 4) 0 =
            ground (arith, a0) in
          let b1 : get_or (set_three bs (i * 4) x y z) (j * 4 + 1) 0 ≡ get_or bs (j * 4 + 1) 0 =
            ground (arith, a1) in
          let b2 : get_or (set_three bs (i * 4) x y z) (j * 4 + 2) 0 ≡ get_or bs (j * 4 + 2) 0 =
            ground (arith, a2) in
          rw (b0, b1, b2, other) refl
    ]

-- A write at an index inside the mapping succeeds, keeps the size of the mapping, and changes the
-- color at that index alone.
pub write_pixel_lem :
    (fb : Framebuffer) (i : ℕ) (c : Color)
    → IsDrawable fb
    → i < fb.stride * fb.height
    → (bs : List ℕ) × (write_pixel fb i c ≡ (true, record fb { bytes = bs }))
      × (length bs ≡ length fb.bytes)
      × ((j : ℕ) → pixel (record fb { bytes = bs }) j ≡ (if i == j then c else pixel fb j))
unfolding write_pixel
write_pixel_lem fb i c v h =
    let (x, y, z, e, k) = bytes_of-color_of fb.pixel_format c v.format in
    let n = v.bounded in
    let m = v.mapped in
    let c1 : checked (i * 4) ≡ some (i * 4) = ground arith in
    let c2 : checked (i * 4 + 4) ≡ some (i * 4 + 4) = ground arith in
    let r : ltb (length fb.bytes) (i * 4 + 4) ≡ false = ground arith in
    (
      set_three fb.bytes (i * 4) x y z,
      rw (write_pixel, e, c1, c2, r) refl,
      length-set_three fb.bytes (i * 4) x y z,
      λ j. color-set_three fb.pixel_format fb.bytes i j x y z c (omega (arith, m, h)) k,
    )
