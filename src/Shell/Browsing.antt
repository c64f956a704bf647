-- ===== src/Shell/Browsing.antt =====
-- What keeps the command that is shown one of the history.
use agnost_os.Base.{
  ℕ, ◌≤◌, ◌<◌, ◌≡◌, refl, Option, none, some, List, [], ◌∷◌, ◌++◌, arith, leb, ◌==◌, Bool-cases,
  Option-cases, inl, inr, length, min,
}
use agnost_os.Commands.{complete_command}
use agnost_os.Console.{
  KWriter, RasterHeight, max_input_chars, newline, font_h, write_str, write_char, put_char,
  end_line, draw_cursor, check_scroll,
}
use agnost_os.Console.Editing.{
  insert_char, backspace, arrow_left, arrow_right, redraw_input_line, redraw_current_input,
}
use agnost_os.Console.Browsing.{
  command_history, is_command, insert_all, auto_complete, drop, zoom, print_history,
}
use agnost_os.Console.Text.{check_scroll-SameText}
use agnost_os.Console.Redraw.{redraw_input_line-Redrawn}
use agnost_os.Console.Recall.{IsBrowsing, IsBrowsing-same}

-- The history and the browsing index are the same.
pub record Keeps (w w' : KWriter) : Type 0 where
  pub history : w'.history ≡ w.history
  pub index : w'.history_index ≡ w.history_index

pub Keeps-IsBrowsing : (w w' : KWriter) → Keeps w w' → IsBrowsing w → IsBrowsing w'
Keeps-IsBrowsing w w' k b = IsBrowsing-same w' w.history w.history_index k.history k.index b

command_history-append :
    (history : List (List ℕ)) (line : List ℕ)
    → length (command_history history) ≤ length (command_history (history ++ line ∷ []))
unfolding command_history
command_history-append [] line = omega arith
command_history-append (l ∷ lines) line =
    let rest = command_history-append lines line in
    elim (Bool-cases (is_command l)) [
      | inl counted ↦ rw (command_history, counted) (omega (arith, rest))
      | inr skipped ↦ rw (command_history, skipped) rest
    ]

index_grows :
    (index : Option ℕ) (count count' : ℕ)
    → count ≤ count'
    → elim index as (λ _. Type 0) [ none ↦ Unit {0} | some i ↦ i < count ]
    → elim index as (λ _. Type 0) [ none ↦ Unit {0} | some i ↦ i < count' ]
index_grows none count count' le h = tt
index_grows (some i) count count' le h = omega arith

module _ (raster_width : RasterHeight → ℕ) where
  end_line-index : (w : KWriter) → (end_line raster_width w).history_index ≡ w.history_index
  unfolding end_line check_scroll
  end_line-index w = ground arith

  end_line-history :
      (w : KWriter) → (end_line raster_width w).history ≡ w.history ++ w.current_line ∷ []
  unfolding end_line
  end_line-history w = (check_scroll-SameText _ (font_h w.font_size)).history

  write_char-IsBrowsing :
      (w : KWriter) (ch : ℕ) → IsBrowsing w → IsBrowsing (write_char raster_width w ch)
  unfolding write_char put_char
  write_char-IsBrowsing w ch b = elim (Bool-cases (ch == newline)) [
    | inl end ↦
        let after : IsBrowsing (end_line raster_width w) =
          IsBrowsing-same (end_line raster_width w) (w.history ++ w.current_line ∷ [])
            w.history_index (end_line-history w) (end_line-index w)
            (index_grows w.history_index (length (command_history w.history)) _
              (command_history-append w.history w.current_line) b) in
        rw (write_char, end) after
    | inr letter ↦ rw (write_char, letter) b
  ]

  pub write_str-IsBrowsing :
      (s : List ℕ) (w : KWriter) → IsBrowsing w → IsBrowsing (write_str raster_width w s)
  unfolding write_str
  write_str-IsBrowsing [] w b = b
  write_str-IsBrowsing (ch ∷ s) w b =
      write_str-IsBrowsing s (write_char raster_width w ch) (write_char-IsBrowsing w ch b)

  pub draw_cursor-Keeps : (w : KWriter) → Keeps w (draw_cursor raster_width w)
  unfolding draw_cursor check_scroll
  draw_cursor-Keeps w = record { history = ground arith; index = ground arith }

  redraw-Keeps :
      (w : KWriter) (line : List ℕ) (cursor : ℕ)
      → Keeps w (redraw_input_line raster_width w line cursor)
  redraw-Keeps w line cursor =
      let r = redraw_input_line-Redrawn raster_width w line cursor in
      record { history = r.history; index = r.history_index }

  pub insert_char-Keeps :
      (w : KWriter) (line : List ℕ) (ch : ℕ) → Keeps w (insert_char raster_width w line ch).0
  unfolding insert_char
  insert_char-Keeps w line ch = elim (Bool-cases (leb max_input_chars (length line))) [
    | inl full ↦ rw (insert_char, full) (record { history = refl; index = refl })
    | inr room ↦ rw (insert_char, room) (redraw-Keeps w _ _)
  ]

  pub backspace-Keeps : (w : KWriter) (line : List ℕ) → Keeps w (backspace raster_width w line).0
  unfolding backspace
  backspace-Keeps w line = elim (Bool-cases (min w.input_cursor (length line) == 0)) [
    | inl first ↦ rw (backspace, first) (record { history = refl; index = refl })
    | inr behind ↦ rw (backspace, behind) (redraw-Keeps w _ _)
  ]

  pub arrow_left-Keeps : (w : KWriter) → Keeps w (arrow_left raster_width w)
  unfolding arrow_left redraw_current_input
  arrow_left-Keeps w =
      let k = redraw-Keeps (record w { input_cursor = _ }) _ _ in
      record { history = k.history; index = k.index }

  pub arrow_right-Keeps : (w : KWriter) → Keeps w (arrow_right raster_width w)
  unfolding arrow_right redraw_current_input
  arrow_right-Keeps w =
      let k = redraw-Keeps (record w { input_cursor = _ }) _ _ in
      record { history = k.history; index = k.index }

  insert_all-IsBrowsing :
      (s : List ℕ) (w : KWriter) (line : List ℕ)
      → IsBrowsing w
      → IsBrowsing (insert_all raster_width w line s).0
  unfolding insert_all
  insert_all-IsBrowsing [] w line b = b
  insert_all-IsBrowsing (ch ∷ s) w line b =
      let out = insert_char raster_width w line ch in
      insert_all-IsBrowsing s out.0 out.1 (Keeps-IsBrowsing w out.0 (insert_char-Keeps w line ch) b)

  pub auto_complete-IsBrowsing :
      (w : KWriter) (line : List ℕ)
      → IsBrowsing w
      → IsBrowsing (auto_complete raster_width w line).0
  unfolding auto_complete
  auto_complete-IsBrowsing w line b = elim (Option-cases (complete_command line)) [
    | inl missing ↦ rw (auto_complete, missing) b
    | inr (command, found) ↦
        rw (auto_complete, found) (insert_all-IsBrowsing (drop (length line) command) w line b)
  ]

  pub zoom-IsBrowsing :
      (step : RasterHeight → RasterHeight) (w : KWriter) (input : List ℕ)
      → IsBrowsing w
      → IsBrowsing (zoom raster_width step w input)
  unfolding zoom print_history
  zoom-IsBrowsing step w input b = write_str-IsBrowsing _ _ b
