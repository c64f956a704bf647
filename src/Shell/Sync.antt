-- ===== src/Shell/Sync.antt =====
-- Consoles and lines that agree, and what a key is for.
use agnost_os.Base.{
  ◌+◌, ◌⊎◌, get_elem?, ℕ, ◌≡◌, refl, sym, ap, ◌∙◌, Option, none, some, List, [], ◌∷◌, ◌++◌, arith,
  ◌==◌, if◌then◌else◌, length,
}
use mathlib.Core.List.{append-nil}
use agnost_os.Console.{
  KWriter, RasterHeight, prompt, newline, reset, write_str, draw_cursor, check_scroll, end_line,
  write_char, font_h,
}
use agnost_os.Console.Editing.{reset_input_cursor}
use agnost_os.Console.Text.{check_scroll-SameText}
use agnost_os.Console.Buffer.{Buffer, rev_onto, length-rev_onto, char, erase, left, right, edit}
use agnost_os.Console.Redraw.{Holds}
use agnost_os.Console.Editor.{InSync}
use agnost_os.Console.Complete.{rev_onto-rev_onto, typed}
use agnost_os.Console.History.{prompted, IsRecalled}
use agnost_os.Console.Recall.{IsOlder}
use agnost_os.Console.Browsing.{drop}
use agnost_os.Commands.{complete_command}
use agnost_os.Console.Zoom.{write_str-Extends}
use agnost_os.Input.Keyboard.{KeyboardEvent}

abbrev pub empty_buffer : Buffer
empty_buffer = record { before = []; after = [] }

-- A text with the cursor behind it.
abbrev pub at_end : List ℕ → Buffer
at_end line = record { before = rev_onto line []; after = [] }

-- `arrow_up` shows the command before the one shown, or changes nothing without commands.
abbrev pub IsUp : List (List ℕ) → Option ℕ → Option ℕ → Buffer → Buffer → Type 0
IsUp lines shown shown' b b' =
    ((prompted lines ≡ []) × (b' ≡ b))
    ⊎ ((index : ℕ) × (rest recalled : List ℕ) × IsOlder shown (length (prompted lines)) index
        × (get_elem? (prompted lines) index ≡ some (prompt ++ rest))
        × IsRecalled rest recalled
        × (b' ≡ at_end recalled)
        × (shown' ≡ some index))

-- `arrow_down` shows the command after the one shown, or an empty text behind the newest one, and
-- changes nothing if none is shown.
abbrev pub IsDown : List (List ℕ) → Option ℕ → Option ℕ → Buffer → Buffer → Type 0
IsDown lines shown shown' b b' =
    ((shown ≡ none) × (b' ≡ b))
    ⊎ ((i : ℕ) × (shown ≡ some i)
        × (((i + 1 ≡ length (prompted lines)) × (b' ≡ at_end []) × (shown' ≡ none))
            ⊎ ((rest recalled : List ℕ) × (get_elem? (prompted lines) (i + 1)
                  ≡ some (prompt ++ rest))
                × IsRecalled rest recalled
                × (b' ≡ at_end recalled)
                × (shown' ≡ some (i + 1)))))

-- Tab types what is missing of the command that the line completes to.
abbrev pub IsTabbed : List ℕ → Buffer → Buffer → Type 0
IsTabbed line b b' =
    ((complete_command line ≡ none) × (b' ≡ b))
    ⊎ ((command : List ℕ) × (complete_command line ≡ some command)
        × (b' ≡ typed b (drop (length line) command)))

-- What a key makes of the text: of the buffer `b` and the line with its text, where the console has
-- the history `lines`, and shows the command `shown` of it before the key and `shown'` behind it.
abbrev pub IsMeant :
    List (List ℕ) → Option ℕ → Option ℕ → List ℕ → Buffer → KeyboardEvent → Buffer → Type 0
IsMeant lines shown shown' line b (KeyboardEvent.char c) b' =
    b' ≡ (if c == newline then empty_buffer else if c == 8 then edit b erase else edit b (char c))
IsMeant lines shown shown' line b KeyboardEvent.ctrl_c b' = b' ≡ empty_buffer
IsMeant lines shown shown' line b KeyboardEvent.ctrl_l b' = b' ≡ empty_buffer
IsMeant lines shown shown' line b KeyboardEvent.zoom_in b' = b' ≡ b
IsMeant lines shown shown' line b KeyboardEvent.zoom_out b' = b' ≡ b
IsMeant lines shown shown' line b KeyboardEvent.arrow_left b' = b' ≡ edit b left
IsMeant lines shown shown' line b KeyboardEvent.arrow_right b' = b' ≡ edit b right
IsMeant lines shown shown' line b KeyboardEvent.arrow_up b' = IsUp lines shown shown' b b'
IsMeant lines shown shown' line b KeyboardEvent.arrow_down b' = IsDown lines shown shown' b b'
IsMeant lines shown shown' line b KeyboardEvent.tab b' = IsTabbed line b b'

module _ (raster_width : RasterHeight → ℕ) where
  pub InSync-same :
      (w w' : KWriter) (line : List ℕ) (b : Buffer)
      → w'.current_line ≡ w.current_line
      → w'.input_cursor ≡ w.input_cursor
      → InSync raster_width w line b
      → InSync raster_width w' line b
  InSync-same w w' line b e f h = record {
    line_eq = h.line_eq;
    held = record { shown = e ∙ h.held.shown; cursor_eq = f ∙ h.held.cursor_eq };
  }

  pub draw_cursor-same :
      (w : KWriter)
      → ((draw_cursor raster_width w).current_line ≡ w.current_line)
        × ((draw_cursor raster_width w).input_cursor ≡ w.input_cursor)
  unfolding draw_cursor check_scroll
  draw_cursor-same w = ground arith

  pub end_line-nil : (w : KWriter) → (end_line raster_width w).current_line ≡ []
  unfolding end_line
  end_line-nil w = (check_scroll-SameText _ (font_h w.font_size)).current_line

  pub print_line-nil :
      (s : List ℕ) (w : KWriter) → (write_str raster_width w (s ++ newline ∷ [])).current_line ≡ []
  unfolding write_str write_char
  print_line-nil [] w = end_line-nil w
  print_line-nil (c ∷ s) w = print_line-nil s (write_char raster_width w c)

  pub prompt-InSync :
      (w : KWriter)
      → w.current_line ≡ []
      → InSync raster_width
          (reset_input_cursor raster_width (write_str raster_width w prompt))
          []
          empty_buffer
  unfolding reset_input_cursor
  prompt-InSync w e =
      let x = write_str-Extends raster_width prompt w (omega arith, (omega arith, tt)) in
      record {
        line_eq = refl;
        held = record { shown = x.current_line ∙ ap (λ l. l ++ prompt) e; cursor_eq = refl };
      }

  pub reset-InSync :
      (w : KWriter) → InSync raster_width (write_str raster_width (reset w) prompt) [] empty_buffer
  unfolding reset
  reset-InSync w =
      let x = write_str-Extends raster_width prompt (reset w) (omega arith, (omega arith, tt)) in
      record {
        line_eq = refl;
        held = record { shown = x.current_line; cursor_eq = x.input_cursor };
      }

  pub Holds-InSync :
      (w : KWriter) (line : List ℕ)
      → Holds w line (length line)
      → InSync raster_width w line (at_end line)
  Holds-InSync w line h = record {
    line_eq = sym (append-nil line) ∙ sym (rev_onto-rev_onto line [] []);
    held = record {
      shown = h.shown;
      cursor_eq = h.cursor_eq ∙ omega (arith, length-rev_onto line []);
    };
  }
