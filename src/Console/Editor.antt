-- ===== src/Console/Editor.antt =====
-- The editing keys on the writer and the shell's line, against a text with a cursor.
use agnost_os.Base.{
  ℕ, suc, ◌+◌, ◌-◌, ◌≡◌, refl, sym, ap, ◌∙◌, true, false, some, List, [], ◌∷◌, ◌++◌, arith, leb,
  ◌==◌, Bool-cases, inl, inr, length, min,
}
use mathlib.Core.Path.{subst}
use agnost_os.Console.{KWriter, RasterHeight, prompt, max_input_chars}
use agnost_os.Console.Editing.{
  insert_char_at, remove_char_at, move_cursor_left, move_cursor_right, strip_prefix,
  redraw_input_line, redraw_current_input, backspace, insert_char, arrow_left, arrow_right,
}
use agnost_os.Console.Buffer.{
  Buffer, rev_onto, text_of, Key, char, erase, left, right, edit_key, edit, edit_all,
  length-rev_onto, insert-at_cursor, remove-at_cursor,
}
use agnost_os.Console.Redraw.{Holds, redraw_input_line-Redrawn}

module _ (raster_width : RasterHeight → ℕ) where
  -- The writer and the shell's line hold the buffer.
  pub record InSync (w : KWriter) (line : List ℕ) (b : Buffer) : Type 0 where
    pub line_eq : line ≡ text_of b
    pub held : Holds w line (length b.before)

  -- What `init` of the shell does for a key that edits.
  abbrev pub press : KWriter × List ℕ → Key → KWriter × List ℕ
  press (w, line) (char c) = insert_char raster_width w line c
  press (w, line) erase = backspace raster_width w line
  press (w, line) left = (arrow_left raster_width w, line)
  press (w, line) right = (arrow_right raster_width w, line)

  abbrev pub press_all : KWriter × List ℕ → List Key → KWriter × List ℕ
  press_all state [] = state
  press_all state (key ∷ keys) = press_all (press state key) keys

  InSync-redraw :
      (w : KWriter) (line : List ℕ) (b : Buffer)
      → line ≡ text_of b
      → InSync (redraw_input_line raster_width w line (length b.before)) line b
  InSync-redraw w line b e = record {
    line_eq = e;
    held = (redraw_input_line-Redrawn raster_width w line (length b.before)).holds;
  }

  InSync-out :
      (out : KWriter × List ℕ) (w : KWriter) (line : List ℕ) (b : Buffer)
      → out ≡ (w, line)
      → InSync w line b
      → InSync out.0 out.1 b
  InSync-out out w line b e h = subst (λ o. InSync o.0 o.1 b) (sym e) h

  press-char :
      (w : KWriter) (line before after : List ℕ) (c : ℕ)
      → InSync w line (record { before = before; after = after })
      → InSync
          (press (w, line) (char c)).0
          (press (w, line) (char c)).1
          (edit_key before after (char c))
  unfolding insert_char
  press-char w line before after c h =
      let size : length line ≡ length before + length after =
        ap length h.line_eq ∙ length-rev_onto before after in
      let cursor : min w.input_cursor (length line) ≡ length before =
        omega (arith, h.held.cursor_eq) in
      elim (Bool-cases (leb max_input_chars (length line))) [
        | inl full ↦
            let full' : leb max_input_chars (length before + length after) ≡ true =
              rw (← size) full in
            rw full' (
              InSync-out (insert_char raster_width w line c) w line _ (rw (insert_char, full) refl)
                h)
        | inr room ↦
            let room' : leb max_input_chars (length before + length after) ≡ false =
              rw (← size) room in
            let line' : insert_char_at line (length before) c ≡ rev_onto (c ∷ before) after =
              rw h.line_eq (insert-at_cursor before after c) in
            let next : length before + 1 ≡ suc (length before) = omega arith in
            rw room' (
              InSync-out (insert_char raster_width w line c) _ _ _
                (rw (insert_char, room, cursor, line', next) refl)
                (InSync-redraw w (rev_onto (c ∷ before) after)
                  (record { before = c ∷ before; after = after }) refl))
      ]

  press-erase :
      (w : KWriter) (line before after : List ℕ)
      → InSync w line (record { before = before; after = after })
      → InSync (press (w, line) erase).0 (press (w, line) erase).1 (edit_key before after erase)
  unfolding backspace
  press-erase w line [] after h =
      let none_before : min w.input_cursor (length line) ≡ 0 = omega (arith, h.held.cursor_eq) in
      InSync-out (backspace raster_width w line) (record w { input_cursor = 0 }) line _
        (rw (backspace, none_before) refl)
        (record { line_eq = h.line_eq; held = record { shown = h.held.shown; cursor_eq = refl } })
  press-erase w line (c ∷ before) after h =
      let size : length line ≡ suc (length before) + length after =
        ap length h.line_eq ∙ length-rev_onto (c ∷ before) after in
      let cursor : min w.input_cursor (length line) ≡ suc (length before) =
        omega (arith, h.held.cursor_eq) in
      let some_before : (suc (length before) == 0) ≡ false = ground arith in
      let line' : remove_char_at line (suc (length before)) ≡ rev_onto before after =
        rw h.line_eq (remove-at_cursor before after c) in
      let next : suc (length before) - 1 ≡ length before = omega arith in
      InSync-out (backspace raster_width w line) _ _ _
        (rw (backspace, cursor, some_before, line', next) refl)
        (InSync-redraw w (rev_onto before after) (record { before = before; after = after }) refl)

  stripped : (line : List ℕ) → strip_prefix prompt (prompt ++ line) ≡ some line
  unfolding strip_prefix
  stripped line = refl

  redraw_current_input-InSync :
      (w : KWriter) (line : List ℕ) (b : Buffer)
      → line ≡ text_of b
      → w.current_line ≡ prompt ++ line
      → w.input_cursor ≡ length b.before
      → InSync (redraw_current_input raster_width w) line b
  unfolding redraw_current_input
  redraw_current_input-InSync w line b e shown cursor =
      let same : redraw_current_input raster_width w
          ≡ redraw_input_line raster_width w line (length b.before) =
        rw (redraw_current_input, shown, stripped line, cursor) refl in
      subst (λ x. InSync x line b) (sym same) (InSync-redraw w line b e)

  press-left :
      (w : KWriter) (line before after : List ℕ)
      → InSync w line (record { before = before; after = after })
      → InSync (arrow_left raster_width w) line (edit_key before after left)
  unfolding arrow_left move_cursor_left
  press-left w line [] after h =
      redraw_current_input-InSync _ line (record { before = []; after = after }) h.line_eq
        h.held.shown (omega (arith, h.held.cursor_eq))
  press-left w line (c ∷ before) after h =
      redraw_current_input-InSync _ line (record { before = before; after = c ∷ after }) h.line_eq
        h.held.shown (omega (arith, h.held.cursor_eq))

  press-right :
      (w : KWriter) (line before after : List ℕ)
      → InSync w line (record { before = before; after = after })
      → InSync (arrow_right raster_width w) line (edit_key before after right)
  unfolding arrow_right move_cursor_right
  press-right w line before [] h =
      let size = ap length h.line_eq ∙ length-rev_onto before [] in
      let shown = ap length h.held.shown in
      redraw_current_input-InSync _ line (record { before = before; after = [] }) h.line_eq
        h.held.shown (omega (arith, h.held.cursor_eq))
  press-right w line before (c ∷ after) h =
      let size = ap length h.line_eq ∙ length-rev_onto before (c ∷ after) in
      let shown = ap length h.held.shown in
      redraw_current_input-InSync _ line (record { before = c ∷ before; after = after }) h.line_eq
        h.held.shown (omega (arith, h.held.cursor_eq))

  pub press-InSync :
      (w : KWriter) (line : List ℕ) (b : Buffer) (key : Key)
      → InSync w line b
      → InSync (press (w, line) key).0 (press (w, line) key).1 (edit b key)
  press-InSync w line b (char c) h = press-char w line b.before b.after c h
  press-InSync w line b erase h = press-erase w line b.before b.after h
  press-InSync w line b left h = press-left w line b.before b.after h
  press-InSync w line b right h = press-right w line b.before b.after h

  -- Whatever is typed, erased and moved over, in any order: if the writer and the shell's line hold a
  -- text with a cursor in it, they hold afterwards what the keys make of it. A character goes before
  -- the cursor unless the line is full, an erasing key takes the one before the cursor, and the
  -- arrows move by one character and stop at the ends.
  pub press_all-InSync :
      (w : KWriter) (line : List ℕ) (b : Buffer) (keys : List Key)
      → InSync w line b
      → InSync (press_all (w, line) keys).0 (press_all (w, line) keys).1 (edit_all b keys)
  press_all-InSync w line b [] h = h
  press_all-InSync w line b (key ∷ keys) h =
      let out = press (w, line) key in
      press_all-InSync out.0 out.1 (edit b key) keys (press-InSync w line b key h)
