-- ===== src/Console/Text.antt =====
-- `write_str`: what becomes of the text that is written, and where its glyphs stand.
use agnost_os.Base.{
  ℕ, ◌+◌, ◌*◌, ◌≤◌, ◌≡◌, ◌≢◌, refl, sym, ap, ◌∙◌, true, List, [], ◌∷◌, ◌++◌, arith, ltb, ◌==◌,
  Bool-cases, inl, inr, ==→eq, ==→ne, ltb→le, All, All-append,
}
use mathlib.Core.List.{append_assoc, append-nil}
use mathlib.Core.Path.{subst}
use agnost_os.Console.{
  KWriter, Cell, RasterHeight, newline, font_w, font_h, check_scroll, end_line, next_cell, put_char,
  write_char, write_str,
}

-- Lines, each with its end.
unfoldable pub unlines : List (List ℕ) → List ℕ
unlines [] = []
unlines (line ∷ lines) = line ++ (newline ∷ unlines lines)

-- All the text that a writer has received since its history began.
abbrev pub received : KWriter → List ℕ
received w = unlines w.history ++ w.current_line

abbrev pub IsLine : List ℕ → Type 0
IsLine = All (λ c. c ≢ newline)

unlines-append :
    (lines : List (List ℕ)) (line : List ℕ)
    → unlines (lines ++ line ∷ []) ≡ unlines lines ++ (line ++ newline ∷ [])
unfolding unlines
unlines-append [] line = refl
unlines-append (l ∷ lines) line =
    rw (unlines-append lines line)
      (cc (append_assoc l (newline ∷ unlines lines) (line ++ newline ∷ [])))

-- What a scroll leaves alone.
pub record SameText (w w' : KWriter) : Type 0 where
  pub history : w'.history ≡ w.history
  pub current_line : w'.current_line ≡ w.current_line
  pub glyph_cells : w'.glyph_cells ≡ w.glyph_cells
  pub column : w'.column ≡ w.column
  pub width : w'.width ≡ w.width
  pub font_size : w'.font_size ≡ w.font_size

pub check_scroll-SameText : (w : KWriter) (fh : ℕ) → SameText w (check_scroll w fh)
unfolding check_scroll
check_scroll-SameText w fh = ground arith

module _ (raster_width : RasterHeight → ℕ) where
  -- The cursor stands on the screen or right behind it, and each glyph of the line fits its row.
  pub record Fits (w : KWriter) : Type 0 where
    pub cursor : w.column * font_w raster_width w.font_size ≤ w.width
    pub glyphs :
        All (λ (c : Cell). (c.column + 1) * font_w raster_width w.font_size ≤ w.width) w.glyph_cells

  -- A writer whose lines have no line end in them and whose glyphs fit.
  pub record IsWriter (w : KWriter) : Type 0 where
    pub lines : All IsLine w.history
    pub line : IsLine w.current_line
    pub fits : Fits w
    pub one_glyph : font_w raster_width w.font_size ≤ w.width

  -- The writer of `end_line` before it scrolls.
  abbrev ended : KWriter → KWriter
  ended w = record w {
    history = w.history ++ w.current_line ∷ [];
    current_line = [];
    glyph_cells = [];
    column = 0;
    row = w.row + 1;
  }

  end_line-SameText : (w : KWriter) → SameText (ended w) (end_line raster_width w)
  unfolding end_line
  end_line-SameText w = check_scroll-SameText (ended w) (font_h w.font_size)

  next_cell-fits :
      (w : KWriter)
      → font_w raster_width w.font_size ≤ w.width
      → ((next_cell raster_width w).column + 1) * font_w raster_width w.font_size ≤ w.width
  unfolding next_cell
  next_cell-fits w one =
      elim (Bool-cases (ltb w.width ((w.column + 1) * font_w raster_width w.font_size))) [
        | inl wrap ↦ rw wrap (omega (arith, one))
        | inr fits ↦
            rw fits (ltb→le w.width ((w.column + 1) * font_w raster_width w.font_size) fits)
      ]

  write_char-text :
      (w : KWriter) (ch : ℕ) → received (write_char raster_width w ch) ≡ received w ++ ch ∷ []
  unfolding write_char put_char
  write_char-text w ch = elim (Bool-cases (ch == newline)) [
    | inl end ↦
        let t = end_line-SameText w in
        rw (write_char, end, t.history, t.current_line, ==→eq ch newline end)
          (cc (
            unlines-append w.history w.current_line,
            append-nil (unlines w.history ++ (w.current_line ++ newline ∷ [])),
            append_assoc (unlines w.history) w.current_line (newline ∷ []),
          ))
    | inr letter ↦
        rw (write_char, letter) (sym (append_assoc (unlines w.history) w.current_line (ch ∷ [])))
  ]

  end_line-eq :
      (w : KWriter) (ch : ℕ)
      → (ch == newline) ≡ true
      → write_char raster_width w ch ≡ end_line raster_width w
  unfolding write_char
  end_line-eq w ch end = rw (write_char, end) refl

  write_char-IsWriter :
      (w : KWriter) (ch : ℕ) → IsWriter w → IsWriter (write_char raster_width w ch)
  unfolding write_char put_char
  write_char-IsWriter w ch v = elim (Bool-cases (ch == newline)) [
    | inl end ↦
        let t = end_line-SameText w in
        subst IsWriter (sym (end_line-eq w ch end)) (record {
          lines =
              rw t.history (All-append IsLine w.history (w.current_line ∷ []) v.lines (v.line, tt));
          line = rw t.current_line tt;
          fits = record {
            cursor = rw (t.column, t.width) (omega arith);
            glyphs = rw t.glyph_cells tt;
          };
          one_glyph = rw (t.font_size, t.width) v.one_glyph;
        })
    | inr letter ↦
        rw (write_char, letter)
          (record {
            lines = v.lines;
            line =
                All-append (λ c. c ≢ newline) w.current_line (ch ∷ []) v.line
                  (==→ne ch newline letter, tt);
            fits = record {
              cursor = next_cell-fits w v.one_glyph;
              glyphs =
                  All-append _ w.glyph_cells _ v.fits.glyphs (next_cell-fits w v.one_glyph, tt);
            };
            one_glyph = v.one_glyph;
          })
  ]

  -- Writing loses no text and reorders none: the lines of the history, each with its line end, and
  -- behind them the current line, are what they were and then the text written. If no line of the
  -- history and not the current line had a line end in it, and a glyph of the writer's size fits
  -- the screen as those of the current line did, then all this still holds: each glyph of the
  -- current line lies within the width.
  pub write_str_lem :
      (w : KWriter) (s : List ℕ)
      → IsWriter w
      → (received (write_str raster_width w s) ≡ received w ++ s)
        × IsWriter (write_str raster_width w s)
  unfolding write_str
  write_str_lem w [] v = (sym (append-nil (received w)), v)
  write_str_lem w (ch ∷ s) v =
      let w' = write_char raster_width w ch in
      let (text, v') = write_str_lem w' s (write_char-IsWriter w ch v) in
      (text ∙ (ap (λ t. t ++ s) (write_char-text w ch) ∙ append_assoc (received w) (ch ∷ []) s), v')
