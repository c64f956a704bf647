-- ===== src/Shell.antt =====
-- src/shell/mod.rs: what the shell's loop does for a keyboard event. `run_command` is a parameter: what
-- a command makes of the console.
pub mod Browsing
pub mod Sync
pub mod Recall
pub mod Keys
pub mod Run
pub mod Tests
use agnost_os.Base.{ℕ, Option, none, some, List, [], ◌∷◌, ◌++◌, ◌==◌, if◌then◌else◌}
use agnost_os.Commands.{codes}
use agnost_os.Console.{
  KWriter, RasterHeight, prompt, newline, reset, write_str, draw_cursor, erase_cursor,
}
use agnost_os.Console.Editing.{backspace, insert_char, reset_input_cursor, arrow_left, arrow_right}
use agnost_os.Console.Browsing.{arrow_up, arrow_down, auto_complete, zoom_in, zoom_out}
use agnost_os.Input.Keyboard.{KeyboardEvent}

module _ (raster_width : RasterHeight → ℕ) (run_command : KWriter → List ℕ → KWriter) where
  -- `kprintln!`.
  abbrev pub print_line : KWriter → List ℕ → KWriter
  print_line w s = write_str raster_width w (s ++ newline ∷ [])

  -- The line is cleared, and the prompt printed for the next one.
  unfoldable pub next_line : KWriter → KWriter × List ℕ
  next_line w = (reset_input_cursor raster_width (write_str raster_width w prompt), [])

  unfoldable pub on_char : KWriter → List ℕ → ℕ → KWriter × List ℕ
  unfolding next_line
  on_char w line c =
      if c == newline
      then next_line (run_command (print_line w []) line)
      else if c == 8
      then backspace raster_width w line
      else insert_char raster_width w line c

  -- The event between the two drawings of the cursor. None is a panic.
  unfoldable pub on_event : KWriter → List ℕ → KeyboardEvent → Option (KWriter × List ℕ)
  unfolding on_char next_line
  on_event w line (KeyboardEvent.char c) = some (on_char w line c)
  on_event w line KeyboardEvent.ctrl_c = some (next_line (print_line w (codes "^C")))
  on_event w line KeyboardEvent.zoom_in = some (zoom_in raster_width w line, line)
  on_event w line KeyboardEvent.zoom_out = some (zoom_out raster_width w line, line)
  on_event w line KeyboardEvent.arrow_right = some (arrow_right raster_width w, line)
  on_event w line KeyboardEvent.arrow_left = some (arrow_left raster_width w, line)
  on_event w line KeyboardEvent.arrow_up = arrow_up raster_width w line
  on_event w line KeyboardEvent.arrow_down = arrow_down raster_width w line
  on_event w line KeyboardEvent.ctrl_l = some (write_str raster_width (reset w) prompt, [])
  on_event w line KeyboardEvent.tab = some (auto_complete raster_width w line)

  unfoldable pub on_key : KWriter → List ℕ → KeyboardEvent → Option (KWriter × List ℕ)
  unfolding on_event
  on_key w line key = elim (on_event (erase_cursor raster_width w) line key) [
    | none ↦ none
    | some (w', line') ↦ some (draw_cursor raster_width w', line')
  ]
